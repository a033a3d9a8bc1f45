-- ===== src/Consensus/Command.antt =====
-- consensus/command.go: the payload of a Raft log entry.
use clusdr.Prelude.{ℕ, Option, List, String, ℤ, pos, leb_ℤ, ◌==◌, if◌then◌else◌}
use clusdr.Fault.{Result}
use clusdr.Clock.{Time, Duration, zero_time, from_unix_ms, ms_duration}

-- CommandKind. `unknown` is any other string.
pub data CommandKind : Type 0 where
  add_member remove_member drop_member : CommandKind
  lock_acquire lock_release lock_renew lock_expire : CommandKind
  lease_grant lease_renew lease_revoke lease_expire : CommandKind
  unknown : String → CommandKind

pub record Command : Type 0 where
  pub kind : CommandKind
  pub id : String
  pub address : String
  pub role : String
  pub name : String
  pub token : ℕ
  pub ttl_ms : ℤ
  pub deadline_unix_ms : ℤ

-- A command with every field but its kind at Go's zero value.
abbrev pub blank : CommandKind → Command
blank kind = record {
  kind = kind;
  id = "";
  address = "";
  role = "";
  name = "";
  token = 0;
  ttl_ms = pos 0;
  deadline_unix_ms = pos 0;
}

-- encodeCommand and decodeCommand, which are encoding/json on the Command struct: `decode` answers
-- `none` for an error.
pub record Codec : Type 0 where
  pub encode : Command → Result (List ℕ)
  pub decode : List ℕ → Option Command

-- The test `cmd.DeadlineUnixMs == 0`.
abbrev unless_zero : ℤ → Time → Time
unless_zero (pos n) t = if n == 0 then zero_time else t
unless_zero _ t = t

-- deadlineOf.
unfoldable pub deadline_of : Command → Time
deadline_of cmd = unless_zero cmd.deadline_unix_ms (from_unix_ms cmd.deadline_unix_ms)

-- `time.Duration(ms) * time.Millisecond` for a positive ms.
abbrev positive_ms : ℤ → Duration
positive_ms (pos n) = ms_duration n
positive_ms _ = pos 0

-- ttlOf.
unfoldable pub ttl_of : Command → Duration
ttl_of cmd = if leb_ℤ cmd.ttl_ms (pos 0) then pos 0 else positive_ms cmd.ttl_ms
