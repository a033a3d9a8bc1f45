-- ===== src/Membership/Invariant.antt =====
-- What every member list looks like, whatever the calls.
use clusdr.Prelude.{
  false, ◌≡◌, refl, sym, ◌∙◌, ◌⊎◌, inl, inr, none, some, List, [], ◌∷◌, String, arith, lookup,
  Distinct, All, Map, str_eq, str_eq_iff, Absent, All-insert, All-delete, All-lookup,
  Distinct-insert, Distinct-delete, lookup-insert, lookup-delete, Bool-cases, Option-cases,
  str_eq_refl, ◌||◌, Absent-lookup, insert, delete,
}
use clusdr.Clock.{Time}
use clusdr.Membership.{
  Engine, Member, Status, Call, joins, marks_dead, leaves, restores, sets_leader, status_alive,
  status_dead, role_voter, role_observer, normalize_status, normalize_role, new, joining, join_as,
  mark_dead, leave, restoring, restore_member, flag_leader, set_leader, step, run, is_some,
}

-- An entry stands under its own id, carries the leader flag exactly if it is the known leader, and has
-- a normal status and role.
abbrev pub Entry : String → String × Member → Type 0
Entry leader_id e =
    (e.1.id ≡ e.0)
    × (e.1.leader ≡ str_eq e.0 leader_id)
    × (normalize_status e.1.status ≡ e.1.status)
    × (normalize_role e.1.role ≡ e.1.role)

-- Besides, nobody is both a member and gone.
pub record IsConsistent (e : Engine) : Type 0 where
  pub distinct : Distinct e.members
  pub entries : All (Entry e.leader_id) e.members
  pub gone_distinct : Distinct e.dropped
  pub gone : All (λ m. lookup m.0 e.dropped ≡ none) e.members

alive_normal : normalize_status status_alive ≡ status_alive
unfolding normalize_status
alive_normal = refl

dead_normal : normalize_status status_dead ≡ status_dead
unfolding normalize_status
dead_normal = refl

pub normalize_status-cases :
    (s : Status) → (normalize_status s ≡ status_alive) ⊎ (normalize_status s ≡ status_dead)
unfolding normalize_status
normalize_status-cases s = elim (Bool-cases (str_eq s status_alive || str_eq s "")) [
  | inl b ↦ inl (rw b)
  | inr b ↦ inr (rw b)
]

voter_normal : normalize_role role_voter ≡ role_voter
unfolding normalize_role
voter_normal = refl

observer_normal : normalize_role role_observer ≡ role_observer
unfolding normalize_role
observer_normal = refl

normalize_role-cases :
    (s : String) → (normalize_role s ≡ role_voter) ⊎ (normalize_role s ≡ role_observer)
unfolding normalize_role
normalize_role-cases s = elim (Bool-cases (str_eq s role_observer)) [
  | inl b ↦ inr (rw b)
  | inr b ↦ inl (rw b)
]

pub normalize_status_idem :
    (s : Status) → normalize_status (normalize_status s) ≡ normalize_status s
normalize_status_idem s = elim (normalize_status-cases s) [
  | inl e ↦ rw e alive_normal
  | inr e ↦ rw e dead_normal
]

pub normalize_role_idem : (s : String) → normalize_role (normalize_role s) ≡ normalize_role s
normalize_role_idem s = elim (normalize_role-cases s) [
  | inl e ↦ rw e voter_normal
  | inr e ↦ rw e observer_normal
]

pub new-IsConsistent : (now : Time) (id addr : String) → IsConsistent (new now id addr)
unfolding new insert lookup normalize_status normalize_role
new-IsConsistent now id addr = record {
  distinct = (tt, tt);
  entries = ((refl, sym (str_eq_refl id), refl, refl), tt);
  gone_distinct = tt;
  gone = (refl, tt);
}

-- Taking an id off the set of those gone only makes lookups there fail.
still_gone :
    (id : String) (d : Map (Unit {0})) (ms : Map Member)
    → Distinct d
    → All (λ m. lookup m.0 d ≡ none) ms
    → All (λ m. lookup m.0 (delete id d) ≡ none) ms
still_gone id d [] h a = tt
still_gone id d (m ∷ ms) h a = (ground (arith, lookup-delete id m.0 d h), still_gone id d ms h a.1)

write-IsConsistent :
    (e : Engine) (id : String) (m : Member)
    → Entry e.leader_id (id, m)
    → IsConsistent e
    → IsConsistent (record e { dropped = delete id e.dropped; members = insert id m e.members })
write-IsConsistent e id m p c = record {
  distinct = Distinct-insert id m e.members c.distinct;
  entries = All-insert (Entry e.leader_id) id m e.members p c.entries;
  gone_distinct = Distinct-delete id e.dropped c.gone_distinct;
  gone =
      All-insert (λ x. lookup x.0 (delete id e.dropped) ≡ none) id m e.members
        (ground (arith, lookup-delete id id e.dropped c.gone_distinct, str_eq_refl id))
        (still_gone id e.dropped e.members c.gone_distinct c.gone);
}

join_as-IsConsistent :
    (e : Engine) (now : Time) (id addr role : String)
    → IsConsistent e
    → IsConsistent (join_as now id addr role e).0
unfolding join_as
join_as-IsConsistent e now id addr role c = elim (Bool-cases (str_eq id "")) [
  | inl b ↦ rw b c
  | inr b ↦ rw b (
      write-IsConsistent e id (joining now id addr (normalize_role role) e)
        (refl, refl, alive_normal, normalize_role_idem role) c)
]

restore_member-IsConsistent :
    (e : Engine) (now : Time) (id addr role : String) (status : Status)
    → IsConsistent e
    → IsConsistent (restore_member now id addr role status e).0
unfolding restore_member
restore_member-IsConsistent e now id addr role status c = elim (Bool-cases (str_eq id "")) [
  | inl b ↦ rw b c
  | inr b ↦ rw b (
      write-IsConsistent e id (restoring now id addr role status e)
        (refl, refl, normalize_status_idem status, normalize_role_idem role) c)
]

mark_dead-IsConsistent :
    (e : Engine) (id : String) → IsConsistent e → IsConsistent (mark_dead id e).0
unfolding mark_dead
mark_dead-IsConsistent e id c = elim (Option-cases (lookup id e.members)) [
  | inl l ↦ rw (l, mark_dead) c
  | inr (m, l) ↦
      rw (l, mark_dead)
        (elim (Bool-cases (str_eq (normalize_status m.status) status_dead)) [
          | inl b ↦ rw b c
          | inr b ↦ rw b (killed m l)
        ])
]
  where
    killed :
        (m : Member)
        → lookup id e.members ≡ some m
        → IsConsistent
            (record e { members = insert id (record m { status = status_dead }) e.members })
    killed m l = record {
      distinct = Distinct-insert id _ e.members c.distinct;
      entries =
          All-insert (Entry e.leader_id) id _ e.members (p.0, p.1, dead_normal, p.3) c.entries;
      gone_distinct = c.gone_distinct;
      gone =
          All-insert (λ x. lookup x.0 e.dropped ≡ none) id _ e.members
            (All-lookup (λ x. lookup x.0 e.dropped ≡ none) id {v = m} e.members c.gone l) c.gone;
    }
      where
        p : Entry e.leader_id (id, m)
        p = All-lookup (Entry e.leader_id) id e.members c.entries l

newly_gone :
    (id : String) (d : Map (Unit {0})) (ms : Map Member)
    → Absent id ms
    → All (λ m. lookup m.0 d ≡ none) ms
    → All (λ m. lookup m.0 (insert id tt d) ≡ none) ms
newly_gone id d [] a h = tt
newly_gone id d (m ∷ ms) a h = (
  ground (arith, lookup-insert id m.0 tt d, str_eq_iff id m.0, str_eq_iff m.0 id),
  newly_gone id d ms a.1 h.1,
)

leave-IsConsistent : (e : Engine) (id : String) → IsConsistent e → IsConsistent (leave id e).0
unfolding leave
leave-IsConsistent e id c = elim (Bool-cases (is_some (lookup id e.dropped))) [
  | inl b ↦ rw (b, leave) c
  | inr b ↦
      rw (b, leave)
        (elim (Option-cases (lookup id e.members)) [
          | inl l ↦ rw (l, leave) c
          | inr (m, l) ↦
              rw (l, leave)
                (record {
                  distinct = Distinct-delete id e.members c.distinct;
                  entries = All-delete (Entry e.leader_id) id e.members c.entries;
                  gone_distinct = Distinct-insert id tt e.dropped c.gone_distinct;
                  gone =
                      newly_gone id e.dropped (delete id e.members) absent
                        (All-delete (λ x. lookup x.0 e.dropped ≡ none) id e.members c.gone);
                })
        ])
]
  where
    absent : Absent id (delete id e.members)
    absent =
        Absent-lookup id (delete id e.members)
          (lookup-delete id id e.members c.distinct ∙ rw (str_eq_refl id) refl)

flag_leader-keys {ℓ} :
    (Q : String → Type ℓ) (id : String) (ms : Map Member)
    → All (λ m. Q m.0) ms
    → All (λ m. Q m.0) (flag_leader id ms)
unfolding flag_leader
flag_leader-keys Q id [] a = tt
flag_leader-keys Q id (m ∷ ms) a = (a.0, flag_leader-keys Q id ms a.1)

flag_leader-Distinct : (id : String) (ms : Map Member) → Distinct ms → Distinct (flag_leader id ms)
unfolding flag_leader
flag_leader-Distinct id [] d = tt
flag_leader-Distinct id ((k, m) ∷ ms) d =
    (flag_leader-keys (λ j. str_eq j k ≡ false) id ms d.0, flag_leader-Distinct id ms d.1)

flag_leader-Entry :
    (old id : String) (ms : Map Member) → All (Entry old) ms → All (Entry id) (flag_leader id ms)
unfolding flag_leader
flag_leader-Entry old id [] a = tt
flag_leader-Entry old id (m ∷ ms) a = ((a.0.0, refl, a.0.2, a.0.3), flag_leader-Entry old id ms a.1)

set_leader-IsConsistent :
    (e : Engine) (id : String) → IsConsistent e → IsConsistent (set_leader id e).0
unfolding set_leader
set_leader-IsConsistent e id c = elim (Bool-cases (str_eq e.leader_id id)) [
  | inl b ↦ rw b c
  | inr b ↦ rw b (record {
    distinct = flag_leader-Distinct id e.members c.distinct;
    entries = flag_leader-Entry e.leader_id id e.members c.entries;
    gone_distinct = c.gone_distinct;
    gone = flag_leader-keys (λ j. lookup j e.dropped ≡ none) id e.members c.gone;
  })
]

pub step-IsConsistent : (e : Engine) (c : Call) → IsConsistent e → IsConsistent (step e c).0
unfolding step
step-IsConsistent e (joins now id addr role) c = join_as-IsConsistent e now id addr role c
step-IsConsistent e (marks_dead id) c = mark_dead-IsConsistent e id c
step-IsConsistent e (leaves id) c = leave-IsConsistent e id c
step-IsConsistent e (restores now id addr role status) c =
    restore_member-IsConsistent e now id addr role status c
step-IsConsistent e (sets_leader id) c = set_leader-IsConsistent e id c

run-IsConsistent : (e : Engine) (cs : List Call) → IsConsistent e → IsConsistent (run e cs)
unfolding run
run-IsConsistent e [] c = c
run-IsConsistent e (x ∷ cs) c = run-IsConsistent (step e x).0 cs (step-IsConsistent e x c)

-- From New, any calls lead to a consistent member list: ids are distinct and each member stands under
-- its own id; a member carries the leader flag exactly if it is the known leader; statuses are alive or
-- dead and roles voter or observer; and nobody is both a member and recorded as gone.
pub run-new-IsConsistent :
    (now : Time) (id addr : String) (cs : List Call) → IsConsistent (run (new now id addr) cs)
run-new-IsConsistent now id addr cs = run-IsConsistent _ cs (new-IsConsistent now id addr)
