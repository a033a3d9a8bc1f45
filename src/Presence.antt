-- ===== src/Presence.antt =====
-- presence/name.go, presence/expire.go and presence/watch.go: the leases whose expiry marks a node dead.
-- Children: Keeper and Holder (the rest of presence/), Expiry, Keeping and Regaining (theorems), Examples (tests).
pub mod Expiry
pub mod Keeper
pub mod Holder
pub mod Keeping
pub mod Regaining
mod Examples
use clusdr.Prelude.{
  Bool, true, false, not, ◌||◌, Option, none, some, List, [], ◌∷◌, String, str_eq, if◌then◌else◌,
  strip_prefix, join,
}
use clusdr.Events.{Event, lease_expired}

abbrev pub presence_prefix : String
presence_prefix = "presence."

-- LeaseName.
unfoldable pub lease_name : String → String
lease_name node_id = join presence_prefix node_id

-- NodeID; `none` is `("", false)`.
unfoldable pub node_id : String → Option String
node_id name = elim (strip_prefix presence_prefix name) [
  | none ↦ none
  | some id ↦ if str_eq id "" then none else some id
]

abbrev pub is_nobody : String → String → Bool
is_nobody id self_id = str_eq id "" || str_eq id self_id

-- OnExpired; the id, if any, for which `remove` is called, which is given if `removes`.
unfoldable pub on_expired : Event → String → Bool → Bool → Option String
unfolding node_id
on_expired e self_id is_leader removes =
    if not (str_eq e.kind lease_expired) then none else elim (node_id e.source) [
      | none ↦ none
      | some id ↦ if is_nobody id self_id || not is_leader || not removes then none else some id
    ]

abbrev with_id : Option String → List String → List String
with_id none ids = ids
with_id (some id) ids = id ∷ ids

-- The loop of WatchExpired over the events that a subscription gives, each with whether the node leads then: the
-- ids for which `remove` is called, in order.
unfoldable pub watch_expired : String → Bool → List (Event × Bool) → List String
unfolding on_expired
watch_expired self_id removes [] = []
watch_expired self_id removes ((e, is_leader) ∷ rest) =
    with_id (on_expired e self_id is_leader removes) (watch_expired self_id removes rest)
