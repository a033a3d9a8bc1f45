-- ===== src/Consensus/Examples.antt =====
-- The state machine on concrete inputs: tests of the definitions, and the theorems at work.
use clusdr.Prelude.{
  ℕ, zero, suc, true, false, ◌≡◌, refl, none, some, Option, List, [], ◌∷◌, arith, map, lookup,
  insert, delete, pos, byte_len, values, sort_by, insert_all, over,
}
use mathlib.Core.Option
use clusdr.Names.{ascii, is_name_char, first_bad}
use clusdr.Fault.{decode_failed, ok}
use clusdr.Clock.{Time, from_unix_ms, ms_duration}
use clusdr.Membership.{
  Engine, new, join_as, mark_dead, leave, normalize_role, normalize_status, restore_member,
  list_members,
}
use clusdr.Membership.Invariant.{new-IsConsistent}
use clusdr.Locks
use clusdr.Leases
use clusdr.Locks.Invariant as LockInvariant
use clusdr.Leases.Invariant as LeaseInvariant
use clusdr.Consensus.Command.{
  Command, Codec, blank, add_member, lock_acquire, lock_release, lease_grant, deadline_of, ttl_of,
}
use clusdr.Consensus.Fsm.{
  Fsm, LogEntry, internal, command, apply_lock, apply_lease, apply_member, on_locks, on_leases,
  apply_to, apply_command, apply, snapshot, restore_members, restore, replay, answered, nothing,
  failed,
}
use clusdr.Consensus.Safety.{IsSafe, CountersBelow, replay-IsSafe}
use clusdr.Consensus.Replicas.{plain, at_first, at_second, answers, replicas_agree}
use clusdr.Consensus.Snapshots.{full, summary, restore-snapshot}

program : Unit {0}
unfolding Locks.valid_name Locks.acquire Locks.release Locks.restore Locks.snapshot_copy
    Locks.add_lock Locks.drop_lock Leases.valid_name Leases.grant Leases.add_lease Leases.restore
    Leases.snapshot_copy is_name_char first_bad byte_len lookup insert delete values insert_all
    sort_by new join_as mark_dead leave normalize_role normalize_status restore_member list_members
    deadline_of ttl_of from_unix_ms ms_duration apply_lock apply_lease apply_member on_locks
    on_leases apply_to apply_command apply snapshot restore_members restore replay answers Locks.new
    Leases.new
program = tt

abbrev join_b : Command
join_b = record (blank add_member) { id = "b"; address = "b:1"; role = "voter" }

abbrev lock_job : Command
lock_job = record (blank lock_acquire) {
  id = "b";
  name = "job";
  ttl_ms = pos 30_000;
  deadline_unix_ms = pos 60_000;
}

abbrev free_job : Command
free_job = record (blank lock_release) { id = "b"; name = "job"; token = 1 }

abbrev lease_gpu : Command
lease_gpu = record (blank lease_grant) {
  id = "b";
  name = "gpu";
  ttl_ms = pos 30_000;
  deadline_unix_ms = pos 60_000;
}

abbrev pick : List Command → ℕ → Option Command
pick [] n = none
pick (c ∷ cs) zero = some c
pick (c ∷ cs) (suc n) = pick cs n

abbrev read : List ℕ → Option Command
read [] = none
read (n ∷ _) = pick (join_b ∷ lock_job ∷ free_job ∷ lease_gpu ∷ []) n

-- A codec that reads four commands.
abbrev small_codec : Codec
small_codec = record { encode = λ c. ok (0 ∷ []); decode = read }

abbrev start : Fsm
start = full (new 1 "a" "a:1") Locks.new Leases.new

abbrev other_start : Fsm
other_start =
    full (record (new 9 "a" "a:1") { self_id = "b" }) (record Locks.new { waiting = 4 ∷ [] })
      Leases.new

abbrev log : List (Time × Time × LogEntry)
log =
    (10, 20, command (0 ∷ []))
    ∷ (11, 19, internal)
    ∷ (12, 30, command (1 ∷ []))
    ∷ (13, 31, command (3 ∷ []))
    ∷ (14, 32, command (9 ∷ []))
    ∷ []

answers-start :
    answers small_codec ascii (map at_first log) start
    ≡ nothing
      ∷ nothing
      ∷ answered true 1 (pos 60_000)
      ∷ answered true 1 (pos 60_000)
      ∷ failed decode_failed
      ∷ []
unfolding program
answers-start = refl

start-IsSafe : IsSafe ascii start
unfolding Locks.new Leases.new
start-IsSafe = record {
  members = new-IsConsistent 1 "a" "a:1";
  locks = (LockInvariant.new-IsWellFormed ascii, record { distinct = tt; issued = tt; apart = tt });
  leases =
      (LeaseInvariant.new-IsWellFormed ascii, record { distinct = tt; issued = tt; apart = tt });
}

start-CountersBelow : CountersBelow 1 start
unfolding Locks.new Leases.new
start-CountersBelow = (omega arith, omega arith)

replay-IsSafe_example :
    IsSafe ascii (replay small_codec ascii (map at_first log) start)
    × CountersBelow 6 (replay small_codec ascii (map at_first log) start)
replay-IsSafe_example =
    replay-IsSafe small_codec ascii (map at_first log) 1 start (omega arith) start-IsSafe
      start-CountersBelow

starts_agree : plain start ≡ plain other_start
unfolding program over
starts_agree = refl

replicas_agree_example :
    (plain (replay small_codec ascii (map at_first log) start)
      ≡ plain (replay small_codec ascii (map at_second log) other_start))
    × (answers small_codec ascii (map at_first log) start
        ≡ answers small_codec ascii (map at_second log) other_start)
replicas_agree_example = replicas_agree small_codec ascii log start other_start starts_agree

-- A node with a member that the snapshot does not have.
abbrev crowded : Engine
crowded = record {
  self_id = "a";
  leader_id = "a";
  members =
      (
        "z",
        record {
          id = "z";
          address = "z:1";
          status = "alive";
          leader = false;
          role = "voter";
          joined_at = 3;
        },
      )
      ∷ [];
  dropped = [];
  emits = false;
}

no_blank : lookup "" (new 1 "a" "a:1").members ≡ none
unfolding program
no_blank = refl

-- The member is still there after the restore.
restore-snapshot_example :
    let r = restore 5 (snapshot start) (full crowded Locks.new Leases.new) in
    (summary "z" r.members
      ≡ some (record { id = "z"; address = "z:1"; role = "voter"; status = "alive" }))
    × (Option.map (λ t. lookup "z" t.locks) r.locks ≡ some none)
    × (Option.map (λ t. t.next) r.locks ≡ some 0)
    × (Option.map (λ t. lookup "z" t.leases) r.leases ≡ some none)
    × (Option.map (λ t. t.next) r.leases ≡ some 0)
unfolding program
restore-snapshot_example =
    restore-snapshot ascii 5 (new 1 "a" "a:1") crowded Locks.new Locks.new Leases.new Leases.new "z"
      (new-IsConsistent 1 "a" "a:1") no_blank (LockInvariant.new-IsWellFormed ascii)
      (LeaseInvariant.new-IsWellFormed ascii)
