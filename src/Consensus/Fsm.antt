-- ===== src/Consensus/Fsm.antt =====
-- consensus/fsm.go: the finite state machine, the single writer of the member list and of the lock and
-- lease tables. Its interfaces MemberApplier, LockApplier and LeaseApplier are the engine and the
-- tables that the application wires in; a table that is nil is `none`. `now` is the local clock.
use clusdr.Prelude.{ℕ, Bool, true, false, Option, none, some, List, [], ◌∷◌, String, ℤ, pos, map}
use clusdr.Fault.{Error, Result, ok, err, decode_failed, lock_table_missing, lease_table_missing}
use clusdr.Clock.{Time}
use clusdr.Names.{Unicode}
use clusdr.Events.{Event}
use clusdr.Membership.{
  Engine, Member, Status, normalize_role, normalize_status, join_as, mark_dead, leave,
  restore_member, list_members,
}
use clusdr.Locks
use clusdr.Leases
use clusdr.Consensus.Command.{
  Command, CommandKind, Codec, add_member, remove_member, drop_member, lock_acquire, lock_release,
  lock_renew, lock_expire, lease_grant, lease_renew, lease_revoke, lease_expire, unknown,
  deadline_of, ttl_of,
}

-- lockResult.
pub record LockResult : Type 0 where
  pub acquired : Bool
  pub token : ℕ
  pub deadline_unix_ms : ℤ
  pub failure : Option Error

-- What Apply returns: nil, an error, or a lockResult.
pub data Response : Type 0 where
  nothing : Response
  failed : Error → Response
  result : LockResult → Response

pub record Fsm : Type 0 where
  pub members : Engine
  pub locks : Option Locks.Table
  pub leases : Option Leases.Table

-- A log entry: LogCommand with its data, or one of Raft's own types.
pub data LogEntry : Type 0 where
  internal : LogEntry
  command : List ℕ → LogEntry

abbrev pub refused : Error → Response
refused e =
    result (record { acquired = false; token = 0; deadline_unix_ms = pos 0; failure = some e })

abbrev pub answered : Bool → ℕ → ℤ → Response
answered acquired token deadline =
    result
      (record { acquired = acquired; token = token; deadline_unix_ms = deadline; failure = none })

-- The answer to a method that returns an error or nil.
abbrev pub answer_done : Option Error → Bool → ℕ → ℤ → Response
answer_done (some e) acquired token deadline = refused e
answer_done none acquired token deadline = answered acquired token deadline

-- The answer to Acquire and Grant.
abbrev pub answer_grant : Result (ℕ × Bool) → ℤ → Response
answer_grant (err e) deadline = refused e
answer_grant (ok (token, acquired)) deadline = answered acquired token deadline

-- The cases of Apply for the lock table `t`.
unfoldable pub apply_lock :
    Unicode → Time → Command → CommandKind → Locks.Table → Locks.Table × List Event × Response
apply_lock u now cmd lock_acquire t =
    let r = Locks.acquire u now cmd.name cmd.id (deadline_of cmd) (ttl_of cmd) t in
    (r.0, [], answer_grant r.1 cmd.deadline_unix_ms)
apply_lock u now cmd lock_release t =
    let r = Locks.release u cmd.name cmd.id cmd.token t in
    (r.0, [], answer_done r.1 false cmd.token (pos 0))
apply_lock u now cmd lock_renew t =
    let r = Locks.renew u cmd.name cmd.id cmd.token (deadline_of cmd) (ttl_of cmd) t in
    (r.0, [], answer_done r.1 true cmd.token cmd.deadline_unix_ms)
apply_lock u now cmd lock_expire t =
    let r = Locks.expire u cmd.name cmd.token t in (r.0, r.1, answered r.2 cmd.token (pos 0))
apply_lock u now cmd _ t = (t, [], nothing)

-- The cases of Apply for the lease table `t`.
unfoldable pub apply_lease :
    Unicode → Time → Command → CommandKind → Leases.Table → Leases.Table × List Event × Response
apply_lease u now cmd lease_grant t =
    let r = Leases.grant u now cmd.name cmd.id (deadline_of cmd) (ttl_of cmd) t in
    (r.0, r.1, answer_grant r.2 cmd.deadline_unix_ms)
apply_lease u now cmd lease_renew t =
    let r = Leases.renew u cmd.name cmd.id cmd.token (deadline_of cmd) (ttl_of cmd) t in
    (r.0, [], answer_done r.1 true cmd.token cmd.deadline_unix_ms)
apply_lease u now cmd lease_revoke t =
    let r = Leases.revoke u cmd.name cmd.id cmd.token t in
    (r.0, r.1, answer_done r.2 false cmd.token (pos 0))
apply_lease u now cmd lease_expire t =
    let r = Leases.expire u cmd.name cmd.token t in (r.0, r.1, answered r.2 cmd.token (pos 0))
apply_lease u now cmd _ t = (t, [], nothing)

-- The answer of JoinAs: nil, or its error.
abbrev pub answer_join : Result Bool → Response
answer_join (ok b) = nothing
answer_join (err e) = failed e

-- The cases of Apply for the member list.
unfoldable pub apply_member : Time → Command → CommandKind → Engine → Engine × List Event × Response
apply_member now cmd add_member e =
    let r = join_as now cmd.id cmd.address (normalize_role cmd.role) e in
    (r.0, r.1, answer_join r.2)
apply_member now cmd remove_member e = let r = mark_dead cmd.id e in (r.0, r.1, nothing)
apply_member now cmd drop_member e = let r = leave cmd.id e in (r.0, r.1, nothing)
apply_member now cmd _ e = (e, [], nothing)

-- Which part of the FSM a kind of command goes to.
pub data Target : Type 0 where
  to_members to_locks to_leases to_nobody : Target

abbrev pub target : CommandKind → Target
target add_member = to_members
target remove_member = to_members
target drop_member = to_members
target lock_acquire = to_locks
target lock_release = to_locks
target lock_renew = to_locks
target lock_expire = to_locks
target lease_grant = to_leases
target lease_renew = to_leases
target lease_revoke = to_leases
target lease_expire = to_leases
target (unknown s) = to_nobody

-- The lock commands; without a table they are refused.
unfoldable pub on_locks :
    Unicode → Time → Command → Option Locks.Table → Option Locks.Table × List Event × Response
on_locks u now cmd none = (none, [], refused lock_table_missing)
on_locks u now cmd (some t) = let r = apply_lock u now cmd cmd.kind t in (some r.0, r.1, r.2)

-- The lease commands; without a table they are refused.
unfoldable pub on_leases :
    Unicode → Time → Command → Option Leases.Table → Option Leases.Table × List Event × Response
on_leases u now cmd none = (none, [], refused lease_table_missing)
on_leases u now cmd (some t) = let r = apply_lease u now cmd cmd.kind t in (some r.0, r.1, r.2)

unfoldable pub apply_to : Unicode → Time → Command → Target → Fsm → Fsm × List Event × Response
apply_to u now cmd to_members f =
    let r = apply_member now cmd cmd.kind f.members in (record f { members = r.0 }, r.1, r.2)
apply_to u now cmd to_locks f =
    let r = on_locks u now cmd f.locks in (record f { locks = r.0 }, r.1, r.2)
apply_to u now cmd to_leases f =
    let r = on_leases u now cmd f.leases in (record f { leases = r.0 }, r.1, r.2)
apply_to u now cmd to_nobody f = (f, [], nothing)

-- Apply, once the entry is decoded.
unfoldable pub apply_command : Unicode → Time → Command → Fsm → Fsm × List Event × Response
unfolding apply_to
apply_command u now cmd f = apply_to u now cmd (target cmd.kind) f

-- Apply.
unfoldable pub apply : Codec → Unicode → Time → LogEntry → Fsm → Fsm × List Event × Response
apply codec u now internal f = (f, [], nothing)
apply codec u now (command bytes) f = elim (codec.decode bytes) [
  | none ↦ (f, [], failed decode_failed)
  | some cmd ↦ apply_command u now cmd f
]

-- memberEntry.
pub record MemberEntry : Type 0 where
  pub id : String
  pub address : String
  pub role : String
  pub status : Status

-- snapshotPayload; the tables' parts are empty where the table is nil.
pub record SnapshotPayload : Type 0 where
  pub members : List MemberEntry
  pub locks : List Locks.LockRecord
  pub next_lock_token : ℕ
  pub leases : List Leases.LeaseRecord
  pub next_lease_token : ℕ

abbrev pub entry_of : Member → MemberEntry
entry_of m = record {
  id = m.id;
  address = m.address;
  role = normalize_role m.role;
  status = normalize_status m.status;
}

abbrev pub copy_locks : Option Locks.Table → Locks.Snapshot
copy_locks none = record { locks = []; next = 0 }
copy_locks (some t) = Locks.snapshot_copy t

abbrev pub copy_leases : Option Leases.Table → Leases.Snapshot
copy_leases none = record { leases = []; next = 0 }
copy_leases (some t) = Leases.snapshot_copy t

-- Snapshot, up to the JSON encoding of the payload.
unfoldable pub snapshot : Fsm → SnapshotPayload
snapshot f = record {
  members = map entry_of (list_members f.members);
  locks = (copy_locks f.locks).locks;
  next_lock_token = (copy_locks f.locks).next;
  leases = (copy_leases f.leases).leases;
  next_lease_token = (copy_leases f.leases).next;
}

-- The loop of Restore over the members: an entry that RestoreMember refuses is logged and skipped.
unfoldable pub restore_members : Time → List MemberEntry → Engine → Engine
restore_members now [] e = e
restore_members now (m ∷ ms) e =
    restore_members now ms (restore_member now m.id m.address (normalize_role m.role) m.status e).0

abbrev pub restore_locks : SnapshotPayload → Option Locks.Table → Option Locks.Table
restore_locks p none = none
restore_locks p (some t) =
    some (Locks.restore (record { locks = p.locks; next = p.next_lock_token }) t)

abbrev pub restore_leases : SnapshotPayload → Option Leases.Table → Option Leases.Table
restore_leases p none = none
restore_leases p (some t) =
    some (Leases.restore (record { leases = p.leases; next = p.next_lease_token }) t)

-- Restore, from the decoded payload.
unfoldable pub restore : Time → SnapshotPayload → Fsm → Fsm
restore now p f = record {
  members = restore_members now p.members f.members;
  locks = restore_locks p f.locks;
  leases = restore_leases p f.leases;
}

-- A log, applied entry by entry at the local times given with it.
unfoldable pub replay : Codec → Unicode → List (Time × LogEntry) → Fsm → Fsm
replay codec u [] f = f
replay codec u ((now, entry) ∷ log) f = replay codec u log (apply codec u now entry f).0
