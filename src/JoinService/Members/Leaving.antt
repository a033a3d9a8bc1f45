-- ===== src/JoinService/Members/Leaving.antt =====
-- Leave of grpcserver/join.go on the leader.
use clusdr.Prelude.{
  Bool, true, false, not, ◌&&◌, ◌≡◌, ◌≢◌, refl, sym, ap, ◌∙◌, inl, inr, none, some, List, String,
  arith, lookup, str_eq, Bool-cases, Option-cases, if◌then◌else◌, All-lookup, subst,
}
use clusdr.Names.{Unicode}
use clusdr.Fault.{member_not_found}
use clusdr.Membership.{Engine, left, list_members, is_some}
use clusdr.Membership.Invariant.{IsConsistent}
use clusdr.Membership.Listing.{find_member}
use clusdr.Consensus.Node.{apply_drop_member}
use clusdr.Consensus.Node.Submission.{AppliesHere, RoundTrips}
use clusdr.Consensus.Servers.{has_server, remove_voter}
use clusdr.Grpc.{replied, Remote, internal, not_found}
use clusdr.JoinService.{Cluster, Voter, JoinService, MemberInfo, answer_by}
use clusdr.JoinService.Changes.{
  LeaveRequest, leave_cluster, leave_here, leave_member, remove_member, listed,
}
use clusdr.JoinService.Members.{dropped, leave_members, answer_by-replied, led-here}

-- What Leave makes of the cluster, for a node that is (or is not) in Raft.
abbrev Out : Voter → Bool → String → Cluster → Cluster → Type 0
Out v in_raft id c c' =
    (lookup id c'.node.members.members ≡ none)
    × ((k : String) → k ≢ id → lookup k c'.node.members.members ≡ lookup k c.node.members.members)
    × (c'.servers ≡ (if in_raft then (remove_voter v.conf id c.servers).0 else c.servers))

remove_member-Out :
    (u : Unicode) (v : Voter) (in_raft : Bool) (id : String) (c : Cluster)
    → AppliesHere v.codec u v.raft
    → RoundTrips v.codec
    → IsConsistent c.node.members
    → (remove_member (some v) in_raft id c).2 ≡ none
    → Out v in_raft id c (remove_member (some v) in_raft id c).0
unfolding remove_member
remove_member-Out u v in_raft id c here back ok h =
    let d = apply_drop_member v.codec v.raft id c.node in
    let (absent, others) = leave_members id c.node.members ok in
    elim (Option-cases d.2) [
      | inr (e, x) ↦
          absurd (let q : some (internal, e) ≡ none = rw (remove_member, x) at h in ground arith)
      | inl x ↦
          let p = dropped u v id c.node here back x in
          let a : lookup id d.0.members.members ≡ none = ap (λ z. lookup id z.members) p ∙ absent in
          let b : (k : String)
              → k ≢ id
              → lookup k d.0.members.members ≡ lookup k c.node.members.members =
            λ k n. ap (λ z. lookup k z.members) p ∙ others k n in
          elim (Bool-cases in_raft) [
            | inl y ↦ rw (remove_member, x, y) (a, b, refl)
            | inr y ↦ rw (remove_member, x, y) (a, b, refl)
          ]
    ]

left-absent :
    (id : String) (e : Engine) → IsConsistent e → left id e ≡ true → lookup id e.members ≡ none
unfolding left
left-absent id e c h = elim (Option-cases (lookup id e.members)) [
  | inl l ↦ l
  | inr (m, l) ↦
      let g : lookup id e.dropped ≡ none =
        All-lookup (λ x. lookup x.0 e.dropped ≡ none) id {v = m} e.members c.gone l in
      absurd (let q : false ≡ true = rw (left, g) at h in ground arith)
]

leave_member-Out :
    (u : Unicode) (v : Voter) (id : String) (c : Cluster)
    → AppliesHere v.codec u v.raft
    → RoundTrips v.codec
    → IsConsistent c.node.members
    → (leave_member (some v) id c).2 ≡ none
    → Out v (has_server v.conf id c.servers) id c (leave_member (some v) id c).0
unfolding leave_member
leave_member-Out u v id c here back ok h =
    elim (Bool-cases (
      not (is_some (find_member id (list_members c.node.members)))
      && not (has_server v.conf id c.servers)
      && not (left id c.node.members))) [
        | inl b ↦ absurd (
            let q : some (not_found, member_not_found) ≡ none = rw (leave_member, b) at h in
            ground arith)
        | inr b ↦ elim (Bool-cases (left id c.node.members)) [
          | inl l ↦ elim (Bool-cases (has_server v.conf id c.servers)) [
            | inl y ↦
                rw (leave_member, b, l, y)
                  (remove_member-Out u v true id c here back ok (rw (leave_member, b, l, y) at h))
            | inr y ↦
                rw (leave_member, b, l, y) (left-absent id c.node.members ok l, λ k n. refl, refl)
          ]
          | inr l ↦
              rw (leave_member, b, l)
                (remove_member-Out u v (has_server v.conf id c.servers) id c here back ok
                  (rw (leave_member, b, l) at h))
        ]
      ]

-- Leave on the leader, where raft.Apply and the codec do what is relied on and the member list is consistent:
-- if it replies with the members, the node is no member any more, every other member is as it was, and
-- the Raft servers are what Raft makes of the removal of the node if it was one, else as they were.
pub leave_removes :
    (u : Unicode) (s : JoinService) (v : Voter) (remote : Remote LeaveRequest (List MemberInfo))
    (q : LeaveRequest) (c : Cluster) (members : List MemberInfo)
    → s.voter ≡ some v
    → v.is_leader ≡ true
    → AppliesHere v.codec u v.raft
    → RoundTrips v.codec
    → IsConsistent c.node.members
    → (leave_cluster s remote q c).2 ≡ replied members
    → let c' = (leave_cluster s remote q c).0 in
      (lookup q.node_id c'.node.members.members ≡ none)
      × ((k : String)
          → k ≢ q.node_id
          → lookup k c'.node.members.members ≡ lookup k c.node.members.members)
      × (c'.servers ≡ (
          if has_server v.conf q.node_id c.servers
          then (remove_voter v.conf q.node_id c.servers).0
          else c.servers))
unfolding leave_cluster leave_here
leave_removes u s v remote q c members r l here back ok h =
    elim (Bool-cases (str_eq q.node_id "")) [
      | inl b ↦ absurd (ground arith)
      | inr b ↦
          let j = led-here s v remote q.relay (record q { relay = true }) (leave_here s q) c r l in
          let o = leave_member (some v) q.node_id c in
          let k : leave_cluster s remote q c ≡ answer_by o listed =
            rw (leave_cluster, b) (j ∙ rw (leave_here, r) refl) in
          let (x, y) = answer_by-replied o listed members (sym (ap (λ z. z.2) k) ∙ h) in
          let z = ap (λ w. w.0) k ∙ y in
          subst (Out v (has_server v.conf q.node_id c.servers) q.node_id c) (sym z)
            (leave_member-Out u v q.node_id c here back ok x)
    ]
