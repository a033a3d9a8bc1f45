-- ===== src/Presence/Holder.antt =====
-- presence/holder.go: RaftHolder, which asks the node itself on the leader and the leader elsewhere.
-- Its state is the node's FSM and the events emitted so far. Nodes is the FSM's member list, and `raft` is
-- `none` without Raft.
use clusdr.Prelude.{Bool, true, false, Option, none, some, List, ◌++◌, String, if◌then◌else◌, ℕ}
use clusdr.Fault.{Error, Result, ok, err, presence_held, presence_renew_rejected}
use clusdr.Clock.{Time, Duration, duration_ms}
use clusdr.Events.{Event}
use clusdr.Consensus.Fsm.{Fsm}
use clusdr.Consensus.Node.{apply_lease_grant, apply_lease_renew}
use clusdr.Grpc.{Reply, replied, refused, Remote, Leading, forward}
use clusdr.LeaseService.{GrantRequest, GrantResponse, RenewRequest, RenewResponse}
use clusdr.Presence.Keeper.{Holder}

abbrev pub World : Type 0
World = Fsm × List Event

pub record RaftHolder : Type 0 where
  pub raft : Option Leading
  pub granting : Remote GrantRequest GrantResponse
  pub renewing : Remote RenewRequest RenewResponse

-- The leader, if this node is it.
abbrev pub leads : Option Leading → Option Leading
leads none = none
leads (some l) = if l.is_leader then some l else none

abbrev pub own_grant : Result (ℕ × Bool) → Result ℕ
own_grant (err e) = err e
own_grant (ok (token, true)) = ok token
own_grant (ok (token, false)) = err presence_held

abbrev pub told_grant : Reply GrantResponse → Result ℕ
told_grant (refused code e) = err e
told_grant (replied resp) = if resp.granted then ok resp.fencing_token else err presence_held

-- Grant.
unfoldable pub grant : RaftHolder → Time → String → String → Duration → World → World × Result ℕ
unfolding apply_lease_grant forward
grant h now name owner ttl w = elim (leads h.raft) [
  | some l ↦
      let r = apply_lease_grant l.codec l.raft now name owner ttl w.0 in
      ((r.0, w.1 ++ r.1), own_grant r.2)
  | none ↦ (
    w,
    told_grant (
        forward h.granting w.0.members
          (record { name = name; owner = owner; ttl_ms = duration_ms ttl })),
  )
]

abbrev pub own_renewal : Result Time → Option Error
own_renewal (err e) = some e
own_renewal (ok deadline) = none

abbrev pub told_renewal : Reply RenewResponse → Option Error
told_renewal (refused code e) = some e
told_renewal (replied resp) = if resp.renewed then none else some presence_renew_rejected

-- Renew.
unfoldable pub renew :
    RaftHolder → Time → String → String → ℕ → Duration → World → World × Option Error
unfolding apply_lease_renew forward
renew h now name owner token ttl w = elim (leads h.raft) [
  | some l ↦
      let r = apply_lease_renew l.codec l.raft now name owner token ttl w.0 in
      ((r.0, w.1 ++ r.1), own_renewal r.2)
  | none ↦ (
    w,
    told_renewal (
        forward h.renewing w.0.members
          (record { name = name; owner = owner; fencing_token = token; ttl_ms = duration_ms ttl })),
  )
]

-- RaftHolder as a Holder, with the local clock at `now`.
abbrev pub as_holder : RaftHolder → Time → Holder World
as_holder h now = record { grant = grant h now; renew = renew h now }
