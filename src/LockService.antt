-- ===== src/LockService.antt =====
-- grpcserver/locks.go: the handlers of LockService.
-- The service's table and its Joiner are those of the node's FSM. `raft` is `none` without Raft (in unit
-- tests); else it says whether the node is the leader, and how commands are submitted. `now` is the
-- local clock. Lock waits and retries: Waiting runs it among the other calls of the table.
-- Children: Calls (the handlers); Lifetimes, Answers, Handlers and Waiting (theorems), Examples
-- (tests).
pub mod Calls
pub mod Waiting
pub mod Answers
pub mod Handlers
pub mod Lifetimes
mod Examples
use clusdr.Prelude.{
  ℕ, Bool, true, false, not, Option, none, some, List, [], String, str_eq, if◌then◌else◌, map, ℤ,
  pos, negsuc, ltb_ℤ,
}
use clusdr.Fault.{Error, Result, ok, err, lock_table_missing}
use clusdr.Clock.{Time, Duration, add, ms_duration, to_unix_ms}
use clusdr.Names.{Unicode}
use clusdr.Events.{Event}
use clusdr.Membership.{Engine}
use clusdr.Locks
use clusdr.Locks.{LockRecord}
use clusdr.Consensus.Command.{Codec}
use clusdr.Consensus.Fsm.{Fsm}
use clusdr.Consensus.Node.{Raft, apply_lock_acquire, apply_lock_release, apply_lock_renew}
use clusdr.Grpc.{
  Code, Reply, replied, refused, invalid_argument, failed_precondition, internal, Remote,
  reject_if_observer, forward, unix_ms, Leading, must_forward, reply_by,
}

-- lockService.
pub record LockService : Type 0 where
  pub unicode : Unicode
  pub raft : Option Leading
  pub default_ttl : Duration

-- RegisterLockService.
unfoldable pub register : Unicode → Option Leading → Duration → LockService
register u raft default_ttl = record {
  unicode = u;
  raft = raft;
  default_ttl = if ltb_ℤ (pos 0) default_ttl then default_ttl else Locks.default_ttl;
}

-- LockRequest and TryLockRequest.
pub record LockRequest : Type 0 where
  pub name : String
  pub holder : String
  pub ttl_ms : ℤ

pub record UnlockRequest : Type 0 where
  pub name : String
  pub holder : String
  pub fencing_token : ℕ

pub record RenewRequest : Type 0 where
  pub name : String
  pub holder : String
  pub fencing_token : ℕ
  pub ttl_ms : ℤ

-- LockResponse and TryLockResponse; `held` is the message.
pub record LockResponse : Type 0 where
  pub acquired : Bool
  pub held : Bool
  pub fencing_token : ℕ
  pub holder : String
  pub deadline_unix_ms : ℤ

pub record RenewResponse : Type 0 where
  pub fencing_token : ℕ
  pub deadline_unix_ms : ℤ

pub record LockInfo : Type 0 where
  pub name : String
  pub holder : String
  pub fencing_token : ℕ
  pub acquired_unix_ms : ℤ
  pub deadline_unix_ms : ℤ

-- The lifetime that ttlFromMs asks for.
abbrev pub requested_ttl : ℤ → Duration → Duration
requested_ttl (pos n) reuse = if ltb_ℤ (pos 0) (pos n) then ms_duration n else reuse
requested_ttl (negsuc n) reuse = reuse

-- ttlFromMs.
unfoldable pub ttl_from_ms : LockService → ℤ → Duration → Duration
ttl_from_ms s ms reuse = Locks.clamp_ttl (requested_ttl ms reuse) s.default_ttl

-- holder.
abbrev pub holder_of : Engine → String → String
holder_of e h = if str_eq h "" then e.self_id else h

-- Get on a table that may be nil.
abbrev pub get_in : String → Option Locks.Table → Option LockRecord
get_in name none = none
get_in name (some t) = Locks.get name t

-- A call of a table method, for a service without Raft.
abbrev pub on_table {ℓ} :
    {A : Type ℓ} → (Locks.Table → Locks.Table × Result A) → Fsm → Fsm × List Event × Result A
on_table call f = elim f.locks [
  | none ↦ (f, [], err lock_table_missing)
  | some t ↦ let r = call t in (record f { locks = some r.0 }, [], r.1)
]

abbrev pub as_result {ℓ} : {A : Type ℓ} → A → Option Error → Result A
as_result a none = ok a
as_result a (some e) = err e

-- applyAcquire.
unfoldable pub apply_acquire :
    LockService → Time → String → String → Duration → Fsm → Fsm × List Event × Result (ℕ × Bool)
unfolding apply_lock_acquire
apply_acquire s now name holder ttl f = elim s.raft [
  | some l ↦ apply_lock_acquire l.codec l.raft now name holder ttl f
  | none ↦ on_table (Locks.acquire s.unicode now name holder (add now ttl) ttl) f
]

-- applyRelease.
unfoldable pub apply_release :
    LockService → String → String → ℕ → Fsm → Fsm × List Event × Result (Unit {0})
apply_release s name holder token f = elim s.raft [
  | some l ↦
      let r = apply_lock_release l.codec l.raft name holder token f in (r.0, r.1, as_result tt r.2)
  | none ↦
      on_table (λ t. let r = Locks.release s.unicode name holder token t in (r.0, as_result tt r.1))
        f
]

-- applyRenew.
unfoldable pub apply_renew :
    LockService → Time → String → String → ℕ → Duration → Fsm → Fsm × List Event × Result Time
apply_renew s now name holder token ttl f = elim s.raft [
  | some l ↦ apply_lock_renew l.codec l.raft now name holder token ttl f
  | none ↦
      on_table
        (λ t.
          let r = Locks.renew s.unicode name holder token (add now ttl) ttl t in
          (r.0, as_result (add now ttl) r.1))
        f
]

abbrev pub deadline_ms : Option LockRecord → ℤ
deadline_ms none = pos 0
deadline_ms (some rec) = unix_ms rec.deadline

-- grantResponse and tryLockResponse.
unfoldable pub grant_response : String → String → ℕ → Fsm → LockResponse
grant_response name holder token f = record {
  acquired = true;
  held = false;
  fencing_token = token;
  holder = holder;
  deadline_unix_ms = deadline_ms (get_in name f.locks);
}

-- The answer of TryLock for a lock that somebody else holds.
abbrev pub held_response : Option LockRecord → LockResponse
held_response none = record {
  acquired = false;
  held = true;
  fencing_token = 0;
  holder = "";
  deadline_unix_ms = pos 0;
}
held_response (some rec) = record {
  acquired = false;
  held = true;
  fencing_token = rec.token;
  holder = rec.holder;
  deadline_unix_ms = unix_ms rec.deadline;
}
