-- ===== src/Fault.antt =====
-- The errors that the components return: one constructor for each message of the source (locks/table.go,
-- leases/table.go, membership/engine.go, events/topic.go, consensus/fsm.go, consensus/node.go and the
-- services of grpcserver). A Go `error` is an `Option Error`, whose `none` is nil.
use Prim.Native.Nat.{ℕ}
use Prim.Native.String.{String}

pub data Error : Type 0 where
  name_required name_too_long : Error
  name_invalid_char : ℕ → Error
  holder_required owner_required : Error
  too_many_locks too_many_leases : Error
  lock_not_held lease_not_held : Error
  lock_token_mismatch lease_token_mismatch : Error
  topic_required topic_too_long : Error
  topic_invalid_char : ℕ → Error
  join_empty_id restore_empty_id : Error
  lock_table_missing lease_table_missing : Error
  decode_failed : Error
  unexpected_result : Error
  not_leader : Error
  bus_missing payload_too_long : Error
  presence_held presence_renew_rejected : Error
  observer_cannot_mutate dial_failed : Error
  node_id_required address_required addr_required : Error
  cluster_mismatch invalid_join_token : Error
  member_not_found : Error
  member_not_alive : String → Error
  not_a_raft_member server_missing : Error
  context_done : Error
  lock_not_acquired lock_not_released not_held_here : Error
  conflict no_leader : Error
  lease_not_granted lease_not_renewed lease_not_revoked : Error
  -- What a transport, a raft library or a remote node reports.
  remote : ℕ → Error

pub data Result {ℓ} (A : Type ℓ) : Type ℓ where
  ok : A → Result A
  err : Error → Result A
