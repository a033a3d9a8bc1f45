-- ===== src/Operator/Pods.antt =====
-- operator/token.go, operator/member.go and the loops of reconcileDaemon in operator/reconcile.go: which pods join
-- the cluster, as what, and which members leave it.
use clusdr.Prelude.{
  ℕ, suc, ◌+◌, Bool, true, false, not, ◌&&◌, ◌||◌, List, [], ◌∷◌, String, str_eq, ltb,
  if◌then◌else◌,
}

pub record MemberStatus : Type 0 where
  pub id : String
  pub address : String

-- PodAddr; `member_addr` is its host address with the port of the daemon, as memberAddr formats it.
pub record PodAddr : Type 0 where
  pub name : String
  pub host_ip : String
  pub node_name : String
  pub addr : String
  pub member_addr : String
  pub ready : Bool

-- joinAddr.
unfoldable pub join_addr : PodAddr → String
join_addr p =
    if not (str_eq p.addr "") then p.addr else if str_eq p.host_ip "" then "" else p.member_addr

-- MemberObserver, for a voter count that is not negative.
unfoldable pub member_observer : ℕ → ℕ → Bool
member_observer index voter_count = if ltb voter_count 1 then true else ltb voter_count (index + 2)

abbrev pub is_row_of : PodAddr → MemberStatus → Bool
is_row_of p m =
    (not (str_eq p.node_name "") && str_eq m.id p.node_name)
    || (not (str_eq (join_addr p) "")
        && not (str_eq m.address "")
        && (str_eq m.address (join_addr p) || str_eq m.address p.host_ip))

-- alreadyMember.
unfoldable pub already_member : List MemberStatus → PodAddr → Bool
unfolding join_addr
already_member [] p = false
already_member (m ∷ ms) p = is_row_of p m || already_member ms p

-- memberListed.
unfoldable pub member_listed : String → List MemberStatus → Bool
member_listed id [] = false
member_listed id (m ∷ ms) = str_eq m.id id || member_listed id ms

unfoldable pub listed : String → List String → Bool
listed id [] = false
listed id (x ∷ xs) = str_eq x id || listed id xs

-- What reconcileDaemon asks of the Runtime.
pub data Request : Type 0 where
  join_pod : String → Bool → Request
  leave_node : String → Request

-- Whether a pod is skipped by the join loop.
abbrev pub skipped : List String → List MemberStatus → PodAddr → Bool
skipped drop members p =
    (str_eq p.host_ip "" || not p.ready) || listed p.node_name drop || already_member members p

-- The join loop over the sorted pods, from an index on, where every request succeeds.
unfoldable pub join_requests : ℕ → ℕ → List String → List MemberStatus → List PodAddr → List Request
unfolding member_observer listed already_member join_addr
join_requests voter_count index drop members [] = []
join_requests voter_count index drop members (p ∷ ps) =
    let rest = join_requests voter_count (suc index) drop members ps in
    if skipped drop members p
    then rest
    else join_pod (join_addr p) (member_observer index voter_count) ∷ rest

-- The leave loop, over the ids in the order of the map.
unfoldable pub leave_requests : List String → List MemberStatus → List Request
unfolding member_listed
leave_requests [] members = []
leave_requests (id ∷ ids) members =
    let rest = leave_requests ids members in
    if member_listed id members then leave_node id ∷ rest else rest
