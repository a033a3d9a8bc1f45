-- ===== src/Membership/Emissions.antt =====
-- The membership events against what changes in the member list.
use clusdr.Prelude.{
  true, false, ◌≡◌, refl, sym, ◌∙◌, none, some, Option, List, [], ◌∷◌, String, arith, lookup,
  str_eq, str_eq_iff, str_eq_refl, str_ne, lookup-insert_self, lookup-delete, Bool-cases,
  Option-cases, if◌then◌else◌, All-lookup, inl, inr,
}
use clusdr.Clock.{Time}
use clusdr.Events.{
  Event, event, nil, member_info, member_join, member_dead, member_left, leader_changed,
}
use clusdr.Membership.{
  Engine, Member, Call, joins, marks_dead, leaves, restores, sets_leader, status_alive, status_dead,
  is_alive, is_some, normalize_status, normalize_role, joining, join_as, mark_dead, leave,
  set_leader, step,
}
use clusdr.Membership.Invariant.{IsConsistent, Entry, normalize_status-cases}

-- The event that a change of one id calls for: its member became alive, stopped being alive, or is gone.
abbrev pub change_events : String → Option Member → Option Member → List Event
change_events id before none = if is_some before then event member_left id nil ∷ [] else []
change_events id before (some m) =
    if is_alive (some m)
    then (if is_alive before then [] else event member_join id (member_info m.address m.role) ∷ [])
    else (if is_alive before then event member_dead id nil ∷ [] else [])

-- The events that a call should emit, by the list before and after it.
abbrev pub due_events : Call → Engine → Engine → List Event
due_events (joins now id addr role) e e' =
    change_events id (lookup id e.members) (lookup id e'.members)
due_events (marks_dead id) e e' = change_events id (lookup id e.members) (lookup id e'.members)
due_events (leaves id) e e' = change_events id (lookup id e.members) (lookup id e'.members)
due_events (restores now id addr role status) e e' = []
due_events (sets_leader id) e e' =
    if str_eq e.leader_id e'.leader_id then [] else event leader_changed e'.leader_id nil ∷ []

unchanged : (id : String) (o : Option Member) → [] ≡ change_events id o o
unchanged id none = refl
unchanged id (some m) = ground arith

join_as-told :
    (e : Engine) (now : Time) (id addr role : String)
    → e.emits ≡ true
    → (join_as now id addr role e).1
      ≡ change_events id (lookup id e.members) (lookup id (join_as now id addr role e).0.members)
unfolding join_as
join_as-told e now id addr role hook = elim (Bool-cases (str_eq id "")) [
  | inl b ↦ rw b (unchanged id (lookup id e.members))
  | inr b ↦
      rw (b, hook, lookup-insert_self id (joining now id addr (normalize_role role) e) e.members)
        (ground arith)
]

mark_dead-told :
    (e : Engine) (id : String)
    → e.emits ≡ true
    → IsConsistent e
    → (mark_dead id e).1
      ≡ change_events id (lookup id e.members) (lookup id (mark_dead id e).0.members)
unfolding mark_dead
mark_dead-told e id hook c = elim (Option-cases (lookup id e.members)) [
  | inl l ↦ rw (l, mark_dead) (rw l (unchanged id none))
  | inr (m, l) ↦
      rw (l, mark_dead)
        (elim (Bool-cases (str_eq (normalize_status m.status) status_dead)) [
          | inl b ↦ rw (b, l) (unchanged id (some m))
          | inr b ↦
              rw (b, hook, lookup-insert_self id (record m { status = status_dead }) e.members)
                (rw (was_alive m l b) refl)
        ])
]
  where
    was_alive :
        (m : Member)
        → lookup id e.members ≡ some m
        → str_eq (normalize_status m.status) status_dead ≡ false
        → str_eq m.status status_alive ≡ true
    was_alive m l b =
        let p : Entry e.leader_id (id, m) =
          All-lookup (Entry e.leader_id) id e.members c.entries l in
        elim (normalize_status-cases m.status) [
          | inl a ↦ (str_eq_iff m.status status_alive).1 (sym p.2 ∙ a)
          | inr d ↦ absurd (str_ne (normalize_status m.status) status_dead b d)
        ]

leave-told :
    (e : Engine) (id : String)
    → e.emits ≡ true
    → IsConsistent e
    → (leave id e).1 ≡ change_events id (lookup id e.members) (lookup id (leave id e).0.members)
unfolding leave
leave-told e id hook c = elim (Bool-cases (is_some (lookup id e.dropped))) [
  | inl b ↦ rw (b, leave) (unchanged id (lookup id e.members))
  | inr b ↦
      rw (b, leave)
        (elim (Option-cases (lookup id e.members)) [
          | inl l ↦ rw (l, leave) (rw l (unchanged id none))
          | inr (m, l) ↦
              rw (l, leave)
                (rw (hook, lookup-delete id id e.members c.distinct, str_eq_refl id) refl)
        ])
]

set_leader-told :
    (e : Engine) (id : String)
    → e.emits ≡ true
    → (set_leader id e).1 ≡ due_events (sets_leader id) e (set_leader id e).0
unfolding set_leader
set_leader-told e id hook = elim (Bool-cases (str_eq e.leader_id id)) [
  | inl b ↦ rw b (rw (str_eq_refl e.leader_id) refl)
  | inr b ↦ rw (b, hook) (rw b refl)
]

-- With the Emit hook set, a call on a consistent list emits exactly the events that the change calls
-- for: member.join when its id becomes alive, member.dead when it stops being alive and stays listed,
-- member.left when it leaves the list, leader.changed when the known leader changes, and nothing else;
-- repeated calls are silent, and so is RestoreMember.
pub membership_events :
    (e : Engine) (c : Call)
    → e.emits ≡ true
    → IsConsistent e
    → (step e c).1 ≡ due_events c e (step e c).0
unfolding step
membership_events e (joins now id addr role) hook c = join_as-told e now id addr role hook
membership_events e (marks_dead id) hook c = mark_dead-told e id hook c
membership_events e (leaves id) hook c = leave-told e id hook c
membership_events e (restores now id addr role status) hook c = refl
membership_events e (sets_leader id) hook c = set_leader-told e id hook
