-- ===== src/Consensus/Node/Examples.antt =====
-- Submissions on concrete inputs: tests of the definitions, and the theorem at work.
use clusdr.Prelude.{true, ◌≡◌, refl, some, arith, pos, lookup, insert, byte_len}
use clusdr.Fault.{ok}
use clusdr.Names.{ascii, is_name_char, first_bad}
use clusdr.Clock.{Time, add, to_unix_ms, duration_ms}
use clusdr.Locks
use clusdr.Consensus.Command.{deadline_of, ttl_of}
use clusdr.Consensus.Fsm.{Fsm, Response, command, apply, apply_command, apply_to, on_locks}
use clusdr.Consensus.Fsm as Machine
use clusdr.Consensus.Node.{Raft, lock_result, propose, acquire_command, apply_lock_acquire}
use clusdr.Consensus.Node as Node
use clusdr.Consensus.Node.Fixtures.{
  clock, one_codec, at_once, idle, one_codec-RoundTrips, at_once-AppliesHere,
}
use clusdr.Consensus.Node.Submission.{whole, whole_duration, acquire_submitted}

program : Unit {0}
unfolding apply apply_command apply_to on_locks Machine.apply_lock lock_result Node.apply_lock
    propose apply_lock_acquire add to_unix_ms duration_ms deadline_of ttl_of Locks.acquire
    Locks.valid_name Locks.add_lock Locks.clamp_ttl Locks.new is_name_char first_bad byte_len lookup
    insert
program = tt

answer :
    (apply_lock_acquire one_codec at_once clock "job" "b" (pos 30_000_000_000) idle).2
    ≡ ok (1, true)
unfolding program
answer = refl

acquire_submitted_example :
    let ttl = Locks.clamp_ttl (pos 30_000_000_000) (pos 0) in
    let f' = (apply_lock_acquire one_codec at_once clock "job" "b" (pos 30_000_000_000) idle).0 in
    (local : Time) × ((Locks.acquire ascii local "job" "b"
        (whole (add clock ttl))
        (whole_duration ttl)
        Locks.new).1
      ≡ ok (1, true))
    × (f' ≡ record idle {
      locks =
          some
            (Locks.acquire ascii local "job" "b"
              (whole (add clock ttl))
              (whole_duration ttl)
              Locks.new).0;
    })
acquire_submitted_example =
    acquire_submitted one_codec ascii at_once clock "job" "b" (pos 30_000_000_000) idle Locks.new 1
      true at_once-AppliesHere one_codec-RoundTrips (omega arith) refl answer
