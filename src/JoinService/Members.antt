-- ===== src/JoinService/Members.antt =====
-- What the writes of join.go do to the member list once Raft has taken them, and its handlers on the leader.
pub mod Rejoining
pub mod Leaving
use clusdr.Prelude.{
  Bool, true, false, not, ◌&&◌, ◌≡◌, ◌≢◌, ◌⊎◌, refl, sym, ap, ◌∙◌, inl, inr, none, some, Option,
  List, [], String, arith, lookup, lookup-insert_self, lookup-insert, lookup-delete, str_eq,
  str_eq_iff, str_ne, Bool-cases, Option-cases, if◌then◌else◌, All-lookup, subst, ne_str,
  str_eq_refl, insert, delete,
}
use clusdr.Names.{Unicode}
use clusdr.Fault.{Error, not_a_raft_member, member_not_found}
use clusdr.Clock.{Time}
use clusdr.Events.{Event}
use clusdr.Membership.{
  Engine, Member, join_as, joining, leave, left, list_members, normalize_role, status_alive,
  is_some,
}
use clusdr.Membership.Invariant.{IsConsistent, Entry, normalize_role_idem}
use clusdr.Membership.Listing.{find_member, find_member-lookup}
use clusdr.Consensus.Command.{blank, add_member, drop_member}
use clusdr.Consensus.Fsm.{Fsm, apply_command, apply_to, apply_member}
use clusdr.Consensus.Node.{Raft, propose_member, apply_add_member_as, apply_drop_member}
use clusdr.Consensus.Node.Submission.{AppliesHere, RoundTrips, member_submitted}
use clusdr.Consensus.Servers.{has_server, remove_voter}
use clusdr.Grpc.{Reply, replied, refused, Remote, Code, internal, not_found, failed_precondition}
use clusdr.JoinService.{
  Cluster, Voter, JoinService, MemberInfo, submit, coded, then_do, reconfigure, led, answer_by,
  Outcome,
}
use clusdr.JoinService.Changes.{
  LeaveRequest, RejoinRequest, rejoin, rejoin_here, rejoin_member, readmit, rejoining_role,
  leave_cluster, leave_here, leave_member, remove_member, listed,
}

-- ApplyAddMemberAs that returns no error did JoinAs, at some local time.
pub added :
    (u : Unicode) (v : Voter) (id addr role : String) (f : Fsm)
    → AppliesHere v.codec u v.raft
    → RoundTrips v.codec
    → (apply_add_member_as v.codec v.raft id addr role f).2 ≡ none
    → (local : Time) × (((apply_add_member_as v.codec v.raft id addr role f).0).members
        ≡ (join_as local id addr (normalize_role (normalize_role role)) f.members).0)
unfolding apply_add_member_as apply_command apply_to apply_member
added u v id addr role f here back h =
    let (local, e) =
      member_submitted v.codec u v.raft
        (record (blank add_member) { id = id; address = addr; role = normalize_role role }) f here
        back h in
    (local, ap (λ x. x.members) (sym e))

-- ApplyDropMember that returns no error did Leave.
pub dropped :
    (u : Unicode) (v : Voter) (id : String) (f : Fsm)
    → AppliesHere v.codec u v.raft
    → RoundTrips v.codec
    → (apply_drop_member v.codec v.raft id f).2 ≡ none
    → ((apply_drop_member v.codec v.raft id f).0).members ≡ (leave id f.members).0
unfolding apply_drop_member apply_command apply_to apply_member
dropped u v id f here back h =
    let (local, e) =
      member_submitted v.codec u v.raft (record (blank drop_member) { id = id }) f here back h in
    ap (λ x. x.members) (sym e)

-- The member that JoinAs leaves under the id, and the others.
pub join_as_members :
    (now : Time) (id addr role : String) (e : Engine)
    → id ≢ ""
    → ((m : Member) × (lookup id (join_as now id addr role e).0.members ≡ some m)
        × (m.status ≡ status_alive)
        × (m.address ≡ addr)
        × (m.role ≡ normalize_role role))
      × ((k : String)
          → k ≢ id
          → lookup k (join_as now id addr role e).0.members ≡ lookup k e.members)
unfolding join_as
join_as_members now id addr role e n = rw (ne_str id "" n) (
  (
    joining now id addr (normalize_role role) e,
    lookup-insert_self id _ e.members,
    refl,
    refl,
    refl,
  ),
  λ k d. lookup-insert id k _ e.members ∙ rw (ne_str id k (λ x. d (sym x))) refl,
)

-- Leave leaves no member under the id, and the others as they were.
pub leave_members :
    (id : String) (e : Engine)
    → IsConsistent e
    → (lookup id (leave id e).0.members ≡ none)
      × ((k : String) → k ≢ id → lookup k (leave id e).0.members ≡ lookup k e.members)
unfolding leave
leave_members id e c = elim (Option-cases (lookup id e.members)) [
  | inl l ↦ elim (Option-cases (lookup id e.dropped)) [
    | inl g ↦ rw (g, l) (l, λ k d. refl)
    | inr (x, g) ↦ rw (g, l) (refl, λ k d. refl)
  ]
  | inr (m, l) ↦
      let g : lookup id e.dropped ≡ none =
        All-lookup (λ x. lookup x.0 e.dropped ≡ none) id {v = m} e.members c.gone l in
      rw (g, l)
        (
          lookup-delete id id e.members c.distinct ∙ rw (str_eq_refl id) refl,
          λ k d. lookup-delete id k e.members c.distinct ∙ rw (ne_str id k (λ x. d (sym x))) refl,
        )
]

-- A handler on the leader, or without Raft, that replies did its steps without an error.
pub answer_by-replied :
    {A : Type 0} (o : Outcome) (reply : Cluster → Reply A) (a : A)
    → (answer_by o reply).2 ≡ replied a
    → (o.2 ≡ none) × ((answer_by o reply).0 ≡ o.0)
answer_by-replied (c, events, some (code, e)) reply a h = ground arith
answer_by-replied (c, events, none) reply a h = (refl, refl)

pub led-here :
    {Q A : Type 0} (s : JoinService) (v : Voter) (remote : Remote Q A) (relay : Bool) (q : Q)
    (here : Cluster → Cluster × List Event × Reply A) (c : Cluster)
    → s.voter ≡ some v
    → v.is_leader ≡ true
    → led s remote relay q here c ≡ here c
unfolding led
led-here s v remote relay q here c r l = rw (r, l) refl

pub coded-none : (code : Code) (e : Option Error) → coded code e ≡ none → e ≡ none
coded-none code e h = ground arith
