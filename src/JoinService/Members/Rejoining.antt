-- ===== src/JoinService/Members/Rejoining.antt =====
-- Rejoin of grpcserver/join.go on the leader.
use clusdr.Prelude.{
  All-lookup, true, ◌≡◌, ◌≢◌, refl, sym, ap, ◌∙◌, inl, inr, none, some, Option, List, String, arith,
  lookup, str_eq, str_ne, Bool-cases, subst,
}
use clusdr.Names.{Unicode}
use clusdr.Fault.{not_a_raft_member}
use clusdr.Clock.{Time}
use clusdr.Membership.{Engine, Member, join_as, list_members, normalize_role, status_alive}
use clusdr.Membership.Invariant.{IsConsistent, Entry, normalize_role_idem}
use clusdr.Membership.Listing.{find_member, find_member-lookup}
use clusdr.Consensus.Node.{apply_add_member_as}
use clusdr.Consensus.Node.Submission.{AppliesHere, RoundTrips}
use clusdr.Consensus.Servers.{has_server}
use clusdr.Grpc.{replied, Remote, internal, failed_precondition}
use clusdr.JoinService.{Cluster, Voter, JoinService, MemberInfo, coded, answer_by}
use clusdr.JoinService.Changes.{
  RejoinRequest, rejoin, rejoin_here, rejoin_member, readmit, rejoining_role, listed,
}
use clusdr.JoinService.Members.{added, join_as_members, answer_by-replied, led-here, coded-none}

rejoining_role_normal :
    (role : String) (m : Option Member)
    → normalize_role (rejoining_role role m) ≡ rejoining_role role m
rejoining_role_normal role none = normalize_role_idem role
rejoining_role_normal role (some m) = normalize_role_idem m.role

-- What Rejoin makes of the members.
abbrev Back : String → String → String → Engine → Engine → Type 0
Back id addr role e e' =
    ((m : Member) × (lookup id e'.members ≡ some m)
      × (m.status ≡ status_alive)
      × (m.address ≡ addr)
      × (m.role ≡ rejoining_role role (lookup id e.members)))
    × ((k : String) → k ≢ id → lookup k e'.members ≡ lookup k e.members)

join_as-Back :
    (now : Time) (id addr role : String) (e : Engine)
    → id ≢ ""
    → IsConsistent e
    → let r = rejoining_role role (find_member id (list_members e)) in
      Back id addr role e (join_as now id addr (normalize_role (normalize_role r)) e).0
join_as-Back now id addr role e n c =
    let r = rejoining_role role (find_member id (list_members e)) in
    let p = rejoining_role_normal role (find_member id (list_members e)) in
    let ((m, l, a, b, d), others) =
      join_as_members now id addr (normalize_role (normalize_role r)) e n in
    (
      (
        m,
        l,
        a,
        b,
        d
            ∙ (ap (λ x. normalize_role (normalize_role x)) p
                ∙ (ap normalize_role p
                    ∙ (p ∙ ap (rejoining_role role) (find_member-lookup e id c)))),
      ),
      others,
    )

rejoined :
    (u : Unicode) (v : Voter) (now : Time) (id addr role : String) (c : Cluster)
    → AppliesHere v.codec u v.raft
    → RoundTrips v.codec
    → IsConsistent c.node.members
    → id ≢ ""
    → (rejoin_member (some v) now id addr role c).2 ≡ none
    → let c' = (rejoin_member (some v) now id addr role c).0 in
      (has_server v.conf id c.servers ≡ true)
      × (c'.servers ≡ c.servers)
      × Back id addr role c.node.members c'.node.members
unfolding rejoin_member readmit
rejoined u v now id addr role c here back ok n h =
    elim (Bool-cases (has_server v.conf id c.servers)) [
      | inr b ↦
          absurd (
            let q : some (failed_precondition, not_a_raft_member) ≡ none = rw b at h in
            ground arith)
      | inl b ↦
          let e = c.node.members in
          let r = rejoining_role role (find_member id (list_members e)) in
          let q : coded internal (apply_add_member_as v.codec v.raft id addr r c.node).2 ≡ none =
            rw b at h in
          let (local, p) = added u v id addr r c.node here back (coded-none internal _ q) in
          rw b (
            refl,
            refl,
            subst (Back id addr role e) (sym p) (join_as-Back local id addr role e n ok),
          )
    ]

rejoin_replied :
    (u : Unicode) (s : JoinService) (v : Voter) (remote : Remote RejoinRequest (List MemberInfo))
    (now : Time) (q : RejoinRequest) (c : Cluster) (members : List MemberInfo)
    → s.voter ≡ some v
    → v.is_leader ≡ true
    → AppliesHere v.codec u v.raft
    → RoundTrips v.codec
    → IsConsistent c.node.members
    → (rejoin s remote now q c).2 ≡ replied members
    → let c' = (rejoin s remote now q c).0 in
      (has_server v.conf q.node_id c.servers ≡ true)
      × (c'.servers ≡ c.servers)
      × ((m : Member) × (lookup q.node_id c'.node.members.members ≡ some m)
          × (m.status ≡ status_alive)
          × (m.address ≡ q.address)
          × (m.role ≡ rejoining_role q.role (lookup q.node_id c.node.members.members)))
      × ((k : String)
          → k ≢ q.node_id
          → lookup k c'.node.members.members ≡ lookup k c.node.members.members)
unfolding rejoin rejoin_here
rejoin_replied u s v remote now q c members r l here back ok h =
    elim (Bool-cases (str_eq q.node_id "")) [
      | inl b ↦ absurd (ground arith)
      | inr b ↦ elim (Bool-cases (str_eq q.address "")) [
        | inl d ↦ absurd (ground arith)
        | inr d ↦
            let j =
              led-here s v remote q.relay (record q { relay = true }) (rejoin_here s now q) c r l in
            let o = rejoin_member (some v) now q.node_id q.address q.role c in
            let k : rejoin s remote now q c ≡ answer_by o listed =
              rw (rejoin, b, d) (j ∙ rw (rejoin_here, r) refl) in
            let (x, y) = answer_by-replied o listed members (sym (ap (λ z. z.2) k) ∙ h) in
            let z = ap (λ w. w.0) k ∙ y in
            let (has, same, back_in) =
              rejoined u v now q.node_id q.address q.role c here back ok (str_ne q.node_id "" b)
                x in
            let (m, others) =
              subst (λ w. Back q.node_id q.address q.role c.node.members w.node.members) (sym z)
                back_in in
            (has, ap (λ w. w.servers) z ∙ same, m, others)
      ]
    ]

-- Rejoin on the leader, where raft.Apply and the codec do what is relied on and the member list is consistent:
-- if it replies with the members, the node is a Raft server, it is now an alive member with the
-- address of the request and the role that it had, or that of the request if it was no member; every other
-- member is as it was, and so are the Raft servers.
pub rejoin_restores :
    (u : Unicode) (s : JoinService) (v : Voter) (remote : Remote RejoinRequest (List MemberInfo))
    (now : Time) (q : RejoinRequest) (c : Cluster) (members : List MemberInfo)
    → s.voter ≡ some v
    → v.is_leader ≡ true
    → AppliesHere v.codec u v.raft
    → RoundTrips v.codec
    → IsConsistent c.node.members
    → (rejoin s remote now q c).2 ≡ replied members
    → let c' = (rejoin s remote now q c).0 in
      (has_server v.conf q.node_id c.servers ≡ true)
      × (c'.servers ≡ c.servers)
      × ((m : Member) × (lookup q.node_id c'.node.members.members ≡ some m)
          × (m.status ≡ status_alive)
          × (m.address ≡ q.address)
          × ((m₀ : Member) → lookup q.node_id c.node.members.members ≡ some m₀ → m.role ≡ m₀.role)
          × (lookup q.node_id c.node.members.members ≡ none → m.role ≡ normalize_role q.role))
      × ((k : String)
          → k ≢ q.node_id
          → lookup k c'.node.members.members ≡ lookup k c.node.members.members)
rejoin_restores u s v remote now q c members r l here back ok h =
    let (has, same, (m, a, alive, addr, role), others) =
      rejoin_replied u s v remote now q c members r l here back ok h in
    let e = c.node.members in
    (
      has,
      same,
      (
        m,
        a,
        alive,
        addr,
        (λ m₀ p.
            role
            ∙ (ap (rejoining_role q.role) p
                ∙ (All-lookup (Entry e.leader_id) q.node_id {v = m₀} e.members ok.entries p).3)),
        λ p. role ∙ ap (rejoining_role q.role) p,
      ),
      others,
    )
