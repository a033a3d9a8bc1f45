-- ===== src/Presence/Expiry.antt =====
-- Whom an expired lease marks dead: presence/expire.go.
use clusdr.Prelude.{
  Bool, true, false, ◌≡◌, ◌≢◌, ◌↔◌, none, some, String, str_eq_iff, arith, strip_prefix-join,
  join-strip_prefix, Option-cases, inl, inr,
}
use clusdr.Events.{Event, lease_expired}
use clusdr.Presence.{presence_prefix, lease_name, node_id, on_expired}

node_id_of : (name id : String) → name ≡ lease_name id → id ≢ "" → node_id name ≡ some id
unfolding node_id lease_name
node_id_of name id e h = ground (arith, strip_prefix-join presence_prefix id, str_eq_iff id "")

node_id_inv : (name id : String) → node_id name ≡ some id → (name ≡ lease_name id) × (id ≢ "")
unfolding node_id lease_name
node_id_inv name id h = ground (arith, join-strip_prefix presence_prefix name id, str_eq_iff id "")

-- With a callback, an event marks a node dead exactly if it is a lease.expired of that node's presence
-- lease, the node has a name and is not this node itself, and this node is the leader; without one it
-- marks nobody dead.
pub on_expired_iff :
    (e : Event) (self_id id : String) (is_leader : Bool)
    → ((on_expired e self_id is_leader true ≡ some id) ↔ (
        (e.kind ≡ lease_expired)
        × (e.source ≡ lease_name id)
        × (id ≢ "")
        × (id ≢ self_id)
        × (is_leader ≡ true)))
      × (on_expired e self_id is_leader false ≡ none)
unfolding on_expired
on_expired_iff e self_id id is_leader = (
  (to, from),
  elim (Option-cases (node_id e.source)) [ inl p ↦ ground arith | inr (i, p) ↦ ground arith ],
)
  where
    to :
        on_expired e self_id is_leader true ≡ some id
        → (e.kind ≡ lease_expired)
          × (e.source ≡ lease_name id)
          × (id ≢ "")
          × (id ≢ self_id)
          × (is_leader ≡ true)
    to h = elim (Option-cases (node_id e.source)) [
      | inl p ↦ absurd (ground arith)
      | inr (i, p) ↦
          let q : i ≡ id = ground arith in
          ground
            (arith, node_id_inv e.source i p, str_eq_iff e.kind lease_expired, str_eq_iff i self_id)
    ]

    from :
        (e.kind ≡ lease_expired)
          × (e.source ≡ lease_name id)
          × (id ≢ "")
          × (id ≢ self_id)
          × (is_leader ≡ true)
        → on_expired e self_id is_leader true ≡ some id
    from (k, s, n, o, l) = ground (
      arith,
      node_id_of e.source id s n,
      str_eq_iff e.kind lease_expired,
      str_eq_iff id self_id,
      str_eq_iff id "",
    )
