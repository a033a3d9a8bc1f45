-- ===== src/Grpc.antt =====
-- What the services of grpcserver share: status codes, a node's own role in the cluster, and the way
-- to the leader. A node is its FSM, since the application gives the services the FSM's member list and
-- tables. mtls.Dial and the remote services are parameters.
use clusdr.Prelude.{
  Bool, false, not, ◌&&◌, ◌||◌, Option, none, some, List, [], ◌∷◌, String, str_eq, if◌then◌else◌, ℤ,
  pos,
}
use clusdr.Fault.{Result, ok, err, Error, observer_cannot_mutate, not_leader}
use clusdr.Clock.{Time, is_zero, to_unix_ms}
use clusdr.Consensus.Command.{Codec}
use clusdr.Consensus.Node.{Raft}
use clusdr.Membership.{Engine, Member, list_members, leader_of, normalize_role, role_observer}

-- The codes of google.golang.org/grpc/codes that the services and the client use.
pub data Code : Type 0 where
  invalid_argument failed_precondition internal unavailable not_found unauthenticated : Code
  canceled deadline_exceeded resource_exhausted aborted unknown : Code

-- What a handler returns.
pub data Reply {ℓ} (A : Type ℓ) : Type ℓ where
  replied : A → Reply A
  refused : Code → Error → Reply A

-- The reply to a result, with the code of its error.
abbrev pub reply_by {ℓ κ} : {A : Type ℓ} {B : Type κ} → Code → (A → B) → Result A → Reply B
reply_by code f (ok a) = replied (f a)
reply_by code f (err e) = refused code e

-- A node's Raft as a service uses it: whether the node is the leader, and how commands are submitted.
pub record Leading : Type 0 where
  pub is_leader : Bool
  pub codec : Codec
  pub raft : Raft

-- Whether a request is sent on to the leader.
abbrev pub must_forward : Option Leading → Bool
must_forward none = false
must_forward (some l) = not l.is_leader

-- Other nodes, by address: whether they can be dialled, and what they answer to a request.
pub record Remote (Q A : Type 0) : Type 0 where
  pub dial : String → Option Error
  pub answer : String → Q → Reply A

-- unixMs.
unfoldable pub unix_ms : Time → ℤ
unix_ms t = if is_zero t then pos 0 else to_unix_ms t

-- Whether the members have an observer under an id.
unfoldable pub is_observer : String → List Member → Bool
is_observer self_id [] = false
is_observer self_id (m ∷ ms) =
    (str_eq m.id self_id && str_eq (normalize_role m.role) role_observer) || is_observer self_id ms

-- rejectIfObserver.
unfoldable pub reject_if_observer : Engine → Option Error
unfolding is_observer
reject_if_observer e =
    if is_observer e.self_id (list_members e) then some observer_cannot_mutate else none

abbrev pub dialled : String → Member → Bool
dialled self_id leader = str_eq leader.address "" || str_eq leader.id self_id

-- dialLeader and the call behind it: the request goes to the member that this node takes for the leader.
unfoldable pub forward : {Q A : Type 0} → Remote Q A → Engine → Q → Reply A
forward r e q = elim (leader_of e) [
  | none ↦ refused failed_precondition not_leader
  | some leader ↦
      if dialled e.self_id leader
      then refused failed_precondition not_leader
      else elim (r.dial leader.address) [
        | some x ↦ refused unavailable x
        | none ↦ r.answer leader.address q
      ]
]
