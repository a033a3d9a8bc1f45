-- ===== src/LockService/Calls.antt =====
-- grpcserver/locks.go: TryLock, Unlock, Renew, ListLocks, and the loop of Lock.
use clusdr.Prelude.{
  ℕ, Bool, true, false, Option, none, some, List, [], String, if◌then◌else◌, map, pos, ltb_ℤ,
}
use clusdr.Fault.{Result, ok, err}
use clusdr.Clock.{Time, Duration, to_unix_ms}
use clusdr.Events.{Event}
use clusdr.Locks
use clusdr.Locks.{LockRecord}
use clusdr.Consensus.Fsm.{Fsm}
use clusdr.Grpc.{
  Reply, replied, refused, invalid_argument, failed_precondition, internal, Remote,
  reject_if_observer, forward, unix_ms, must_forward, reply_by,
}
use clusdr.LockService.{
  LockService, LockRequest, UnlockRequest, RenewRequest, LockResponse, RenewResponse, LockInfo,
  ttl_from_ms, holder_of, get_in, apply_acquire, apply_release, apply_renew, grant_response,
  held_response,
}

-- What the handlers do before they touch the table: the checks, and the way to the leader.
unfoldable pub guarded :
    {Q A : Type 0}
    → LockService
    → Remote Q A
    → String
    → Q
    → (Fsm → Fsm × List Event × Reply A)
    → Fsm
    → Fsm × List Event × Reply A
unfolding reject_if_observer forward
guarded s remote name q body f = elim (Locks.valid_name s.unicode name) [
  | some e ↦ (f, [], refused invalid_argument e)
  | none ↦ elim (reject_if_observer f.members) [
    | some e ↦ (f, [], refused failed_precondition e)
    | none ↦ if must_forward s.raft then (f, [], forward remote f.members q) else body f
  ]
]

abbrev pub try_answer : String → String → Fsm → ℕ × Bool → LockResponse
try_answer name holder f (token, true) = grant_response name holder token f
try_answer name holder f (token, false) = held_response (get_in name f.locks)

-- TryLock where the node is the leader or has no Raft. `between` is what others do to the node after the entry is
-- applied and before the handler reads the lock's record for its answer; the events are the call's own.
unfoldable pub try_lock_here :
    LockService → Time → (Fsm → Fsm) → LockRequest → Fsm → Fsm × List Event × Reply LockResponse
unfolding apply_acquire ttl_from_ms grant_response
try_lock_here s now between q f =
    let holder = holder_of f.members q.holder in
    let r = apply_acquire s now q.name holder (ttl_from_ms s q.ttl_ms (pos 0)) f in
    let later = between r.0 in (later, r.1, reply_by internal (try_answer q.name holder later) r.2)

-- TryLock.
unfoldable pub try_lock :
    LockService
    → Remote LockRequest LockResponse
    → Time
    → (Fsm → Fsm)
    → LockRequest
    → Fsm
    → Fsm × List Event × Reply LockResponse
unfolding guarded try_lock_here
try_lock s remote now between q f = guarded s remote q.name q (try_lock_here s now between q) f

-- Unlock where the node is the leader or has no Raft; the response says nothing but that it was released.
unfoldable pub unlock_here : LockService → UnlockRequest → Fsm → Fsm × List Event × Reply (Unit {0})
unfolding apply_release
unlock_here s q f =
    let r = apply_release s q.name (holder_of f.members q.holder) q.fencing_token f in
    (r.0, r.1, reply_by failed_precondition (λ u. u) r.2)

-- Unlock.
unfoldable pub unlock :
    LockService
    → Remote UnlockRequest (Unit {0})
    → UnlockRequest
    → Fsm
    → Fsm × List Event × Reply (Unit {0})
unfolding guarded unlock_here
unlock s remote q f = guarded s remote q.name q (unlock_here s q) f

-- The lifetime that Renew uses where the request names none: the lock's, if it is positive.
abbrev pub reuse_ttl : Duration → Option LockRecord → Duration
reuse_ttl default_ttl none = default_ttl
reuse_ttl default_ttl (some rec) = if ltb_ℤ (pos 0) rec.ttl then rec.ttl else default_ttl

abbrev pub renew_response : ℕ → Time → RenewResponse
renew_response token deadline = record {
  fencing_token = token;
  deadline_unix_ms = unix_ms deadline;
}

-- Renew where the node is the leader or has no Raft, and nobody else comes in between its reading of the lock's
-- lifetime and the entry.
unfoldable pub renew_here :
    LockService → Time → RenewRequest → Fsm → Fsm × List Event × Reply RenewResponse
unfolding apply_renew ttl_from_ms unix_ms
renew_here s now q f =
    let ttl = ttl_from_ms s q.ttl_ms (reuse_ttl s.default_ttl (get_in q.name f.locks)) in
    let r = apply_renew s now q.name (holder_of f.members q.holder) q.fencing_token ttl f in
    (r.0, r.1, reply_by failed_precondition (renew_response q.fencing_token) r.2)

-- Renew.
unfoldable pub renew :
    LockService
    → Remote RenewRequest RenewResponse
    → Time
    → RenewRequest
    → Fsm
    → Fsm × List Event × Reply RenewResponse
unfolding guarded renew_here
renew s remote now q f = guarded s remote q.name q (renew_here s now q) f

abbrev pub lock_info : LockRecord → LockInfo
lock_info rec = record {
  name = rec.name;
  holder = rec.holder;
  fencing_token = rec.token;
  acquired_unix_ms = to_unix_ms rec.acquired_at;
  deadline_unix_ms = unix_ms rec.deadline;
}

-- ListLocks.
unfoldable pub list_locks : Fsm → List LockInfo
list_locks f = elim f.locks [ none ↦ [] | some t ↦ map lock_info (Locks.list t) ]

-- Where a call of Lock stands once it has passed its checks on the leader: about to ask the table,
-- declined and not yet waiting, waiting, or back with a reply.
pub data Phase : Type 0 where
  asking declined waiting : Phase
  returned : Reply LockResponse → Phase

-- Lock up to its loop.
unfoldable pub start : LockService → Remote LockRequest LockResponse → LockRequest → Fsm → Phase
unfolding reject_if_observer forward
start s remote q f = elim (Locks.valid_name s.unicode q.name) [
  | some e ↦ returned (refused invalid_argument e)
  | none ↦ elim (reject_if_observer f.members) [
    | some e ↦ returned (refused failed_precondition e)
    | none ↦ if must_forward s.raft then returned (forward remote f.members q) else asking
  ]
]

abbrev pub asked : String → String → Fsm → Result (ℕ × Bool) → Phase
asked name holder f (err e) = returned (refused internal e)
asked name holder f (ok (token, true)) = returned (replied (grant_response name holder token f))
asked name holder f (ok (token, false)) = declined

-- The part of a turn of the loop of Lock before Wait, as long as the context is not done; a granted call reads the
-- deadline for its answer before anybody else comes in.
unfoldable pub ask : LockService → Time → LockRequest → String → Fsm → Fsm × List Event × Phase
unfolding apply_acquire ttl_from_ms grant_response
ask s now q holder f =
    let r = apply_acquire s now q.name holder (ttl_from_ms s q.ttl_ms (pos 0)) f in
    (r.0, r.1, asked q.name holder r.0 r.2)
