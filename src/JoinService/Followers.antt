-- ===== src/JoinService/Followers.antt =====
-- What the handlers of join.go do on a node that is not the leader.
use clusdr.Prelude.{
  ◌≢◌, ◌⊎◌, inl, inr, str_eq, str_ne, str_eq_iff, Bool, true, false, not, ◌&&◌, Bool-cases,
  if◌then◌else◌, ◌≡◌, refl, List, [], String, arith,
}
use clusdr.Clock.{Time}
use clusdr.Events.{Event}
use clusdr.Grpc.{Reply, Remote}
use clusdr.JoinService.{
  Cluster, JoinService, JoinRequest, JoinResponse, MemberInfo, follows, led, join, join_here,
  unauthorized,
}
use clusdr.JoinService.Changes.{
  PromoteRequest, LeaveRequest, RejoinRequest, promote, leave_cluster, rejoin, promote_here,
  leave_here, rejoin_here,
}
use clusdr.JoinService.Control.{or_self, request_promote, request_leave}

-- Nothing happened to the cluster.
abbrev pub Untouched : {A : Type 0} → Cluster → Cluster × List Event × Reply A → Type 0
Untouched c r = (r.0 ≡ c) × (r.1 ≡ [])

-- A node may act on a request of Join: the request names a node and an address, fits the cluster and has
-- the join token, and the node leads or has no Raft.
abbrev pub MayJoin : JoinService → JoinRequest → Type 0
MayJoin s q =
    (q.node_id ≢ "")
    × (q.address ≢ "")
    × ((s.cluster_id ≡ "") ⊎ (q.cluster_id ≡ "") ⊎ (q.cluster_id ≡ s.cluster_id))
    × (unauthorized s.security q.join_token ≡ false)
    × (follows s.voter ≡ false)

led-either :
    {Q A : Type 0} (s : JoinService) (remote : Remote Q A) (relay : Bool) (q : Q)
    (here : Cluster → Cluster × List Event × Reply A) (c : Cluster)
    → (follows s.voter ≡ false) ⊎ Untouched c (led s remote relay q here c)
unfolding led
led-either s remote relay q here c = elim (Bool-cases (follows s.voter)) [
  | inl b ↦ inr (rw (led, b) (refl, refl))
  | inr b ↦ inl b
]

led_alike :
    {Q A : Type 0} (s : JoinService) (remote remote' : Remote Q A) (q : Q)
    (here : Cluster → Cluster × List Event × Reply A) (c : Cluster)
    → follows s.voter ≡ true
    → led s remote true q here c ≡ led s remote' true q here c
unfolding led
led_alike s remote remote' q here c h = rw h refl

join-either :
    (s : JoinService) (now : Time) (c : Cluster) (r : Remote JoinRequest JoinResponse)
    (q : JoinRequest)
    → MayJoin s q ⊎ Untouched c (join s r now q c)
unfolding join
join-either s now c r q = elim (Bool-cases (str_eq q.node_id "")) [
  | inl b ↦ inr (rw (join, b) (refl, refl))
  | inr b ↦ elim (Bool-cases (str_eq q.address "")) [
    | inl d ↦ inr (rw (join, b, d) (refl, refl))
    | inr d ↦
        elim (Bool-cases (
          not (str_eq s.cluster_id "")
          && not (str_eq q.cluster_id "")
          && not (str_eq q.cluster_id s.cluster_id))) [
            | inl e ↦ inr (rw (join, b, d, e) (refl, refl))
            | inr e ↦ elim (Bool-cases (unauthorized s.security q.join_token)) [
              | inl x ↦ inr (rw (join, b, d, e, x) (refl, refl))
              | inr x ↦
                  elim (led-either s r q.relay (record q { relay = true }) (join_here s now q) c) [
                    | inl f ↦ inl (str_ne q.node_id "" b, str_ne q.address "" d, fits e, x, f)
                    | inr y ↦ inr (rw (join, b, d, e, x) y)
                  ]
            ]
          ]
  ]
]
  where
    fits :
        (not (str_eq s.cluster_id "")
            && not (str_eq q.cluster_id "")
            && not (str_eq q.cluster_id s.cluster_id))
          ≡ false
        → (s.cluster_id ≡ "") ⊎ (q.cluster_id ≡ "") ⊎ (q.cluster_id ≡ s.cluster_id)
    fits e = ground (
      arith,
      str_eq_iff s.cluster_id "",
      str_eq_iff q.cluster_id "",
      str_eq_iff q.cluster_id s.cluster_id,
    )

-- A handler whose other requests need a name, and here lead or have no Raft.
abbrev pub MayChange : JoinService → String → Type 0
MayChange s id = (id ≢ "") × (follows s.voter ≡ false)

named-either :
    {A : Type 0} (s : JoinService) (id : String) (c : Cluster)
    (bad next : Cluster × List Event × Reply A)
    → Untouched c bad
    → (follows s.voter ≡ false) ⊎ Untouched c next
    → MayChange s id ⊎ Untouched c (if str_eq id "" then bad else next)
named-either s id c bad next u h = elim (Bool-cases (str_eq id "")) [
  | inl b ↦ inr (rw b u)
  | inr b ↦ elim h [ inl f ↦ inl (str_ne id "" b, f) | inr y ↦ inr (rw b y) ]
]

unless_led :
    {A : Type 0} (s : JoinService) (c : Cluster) (sent here : Cluster × List Event × Reply A)
    → Untouched c sent
    → (follows s.voter ≡ false) ⊎ Untouched c (if follows s.voter then sent else here)
unless_led s c sent here u = elim (Bool-cases (follows s.voter)) [
  | inl b ↦ inr (rw b u)
  | inr b ↦ inl b
]

refused_first :
    {A P : Type 0} (b : Bool) (c : Cluster) (bad next : Cluster × List Event × Reply A)
    → Untouched c bad
    → P ⊎ Untouched c next
    → P ⊎ Untouched c (if b then bad else next)
refused_first true c bad next u h = inr u
refused_first false c bad next u h = h

-- Join changes nothing and emits nothing, unless the request names a node and an address, its cluster id is this one's
-- or one of both is empty, it has the join token where there is one, and the node leads or has no Raft. Promote,
-- Leave and Rejoin, and RequestPromote and RequestLeave of a node's own operator, change nothing and
-- emit nothing, unless they are about a node with a name and the node that is asked leads or has no Raft.
pub joins_only_as_leader :
    (s : JoinService) (now : Time) (c : Cluster) (r : Remote JoinRequest JoinResponse)
    (q : JoinRequest) (p : Remote PromoteRequest (List MemberInfo)) (q₁ : PromoteRequest)
    (l : Remote LeaveRequest (List MemberInfo)) (q₂ : LeaveRequest)
    (j : Remote RejoinRequest (List MemberInfo)) (q₃ : RejoinRequest) (id : String)
    → (MayJoin s q ⊎ Untouched c (join s r now q c))
      × (MayChange s q₁.node_id ⊎ Untouched c (promote s p now q₁ c))
      × (MayChange s q₂.node_id ⊎ Untouched c (leave_cluster s l q₂ c))
      × (MayChange s q₃.node_id ⊎ Untouched c (rejoin s j now q₃ c))
      × (MayChange s (or_self id c) ⊎ Untouched c (request_promote s p now id c))
      × (MayChange s (or_self id c) ⊎ Untouched c (request_leave s l id c))
unfolding promote leave_cluster rejoin request_promote request_leave
joins_only_as_leader s now c r q p q₁ l q₂ j q₃ id = (
  join-either s now c r q,
  named-either s q₁.node_id c _ _ (refl, refl)
      (led-either s p q₁.relay (record q₁ { relay = true }) (promote_here s now q₁) c),
  named-either s q₂.node_id c _ _ (refl, refl)
      (led-either s l q₂.relay (record q₂ { relay = true }) (leave_here s q₂) c),
  named-either s q₃.node_id c _ _ (refl, refl)
      (refused_first _ c _ _ (refl, refl)
        (led-either s j q₃.relay (record q₃ { relay = true }) (rejoin_here s now q₃) c)),
  named-either s (or_self id c) c _ _ (refl, refl) (unless_led s c _ _ (refl, refl)),
  named-either s (or_self id c) c _ _ (refl, refl) (unless_led s c _ _ (refl, refl)),
)

-- A request that was sent on already is not sent on again: on a node that is not the leader, what Join,
-- Promote, Leave and Rejoin do with it does not depend on any other node.
pub no_second_hop :
    (s : JoinService) (now : Time) (c : Cluster) (r r' : Remote JoinRequest JoinResponse)
    (q : JoinRequest) (p p' : Remote PromoteRequest (List MemberInfo)) (q₁ : PromoteRequest)
    (l l' : Remote LeaveRequest (List MemberInfo)) (q₂ : LeaveRequest)
    (j j' : Remote RejoinRequest (List MemberInfo)) (q₃ : RejoinRequest)
    → follows s.voter ≡ true
    → (q.relay ≡ true → join s r now q c ≡ join s r' now q c)
      × (q₁.relay ≡ true → promote s p now q₁ c ≡ promote s p' now q₁ c)
      × (q₂.relay ≡ true → leave_cluster s l q₂ c ≡ leave_cluster s l' q₂ c)
      × (q₃.relay ≡ true → rejoin s j now q₃ c ≡ rejoin s j' now q₃ c)
unfolding join promote leave_cluster rejoin
no_second_hop s now c r r' q p p' q₁ l l' q₂ j j' q₃ h = (
  (λ e.
      rw e (ground (arith, led_alike s r r' (record q { relay = true }) (join_here s now q) c h))),
  (λ e.
      rw e (
        ground (arith, led_alike s p p' (record q₁ { relay = true }) (promote_here s now q₁) c h))),
  (λ e. rw e (ground (arith, led_alike s l l' (record q₂ { relay = true }) (leave_here s q₂) c h))),
  (λ e.
      rw e
        (ground (arith, led_alike s j j' (record q₃ { relay = true }) (rejoin_here s now q₃) c h))),
)
