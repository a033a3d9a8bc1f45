-- ===== src/LockService/Examples.antt =====
-- The lock service on concrete inputs: tests of the definitions, and the theorems at work.
use clusdr.Prelude.{
  ◌≢◌, true, false, ◌≡◌, ◌⊎◌, refl, none, some, [], ◌∷◌, arith, ◌*◌, ◌≤◌, ◌<◌, ◌^◌, pos, negsuc,
  lookup, insert, delete, byte_len, int64, values, sort_by, str_lt,
}
use clusdr.Names.{ascii, is_name_char, first_bad}
use clusdr.Fault.{dial_failed}
use clusdr.Clock.{add, from_unix_ms, to_unix_ms, duration_ms, nanos_per_ms, ms_duration}
use clusdr.Membership.{new, list_members, normalize_role}
use clusdr.Locks
use clusdr.Locks.{LockRecord, Table, releases, waits, run, wait}
use clusdr.Consensus.Command.{deadline_of, ttl_of}
use clusdr.Consensus.Fsm.{Fsm, apply, apply_command, apply_to, on_locks}
use clusdr.Consensus.Fsm as Machine
use clusdr.Consensus.Node.{lock_result, propose, apply_lock_acquire}
use clusdr.Consensus.Node as Node
use clusdr.Consensus.Node.Fixtures.{
  clock, one_codec, at_once, idle, one_codec-RoundTrips, at_once-AppliesHere,
}
use clusdr.Grpc.{
  replied, refused, unavailable, Remote, Leading, reject_if_observer, is_observer, forward, unix_ms,
}
use clusdr.LockService.{
  LockResponse, held_response, deadline_ms, LockService, LockRequest, UnlockRequest, RenewRequest,
  register, ttl_from_ms, apply_acquire, apply_release, grant_response, get_in, holder_of,
}
use clusdr.LockService.Calls.{
  asking, declined, guarded, try_lock_here, try_lock, unlock, unlock_here, renew, ask,
}
use clusdr.LockService.Answers.{Shows}
use clusdr.LockService.Handlers.{MayAct, Untouched, acts_only_as_leader, try_lock_tells}
use clusdr.LockService.Lifetimes.{ttl_from_ms_lem}
use clusdr.LockService.Waiting.{is_waiting, owner, wait_misses_nothing}
use clusdr.LockService.Waiting.Missed.{World, Turns, IsStuck, release_can_be_missed}

program : Unit {0}
unfolding Locks.acquire Locks.release Locks.valid_name Locks.add_lock Locks.drop_lock
    Locks.clamp_ttl Locks.new Locks.wait Locks.step Locks.run is_name_char first_bad byte_len lookup
    insert delete int64 values sort_by str_lt add to_unix_ms duration_ms ms_duration new
    list_members normalize_role deadline_of ttl_of apply apply_command apply_to on_locks
    Machine.apply_lock lock_result Node.apply_lock propose apply_lock_acquire reject_if_observer
    is_observer forward unix_ms register ttl_from_ms apply_acquire apply_release grant_response
    guarded try_lock_here try_lock unlock unlock_here ask is_waiting from_unix_ms
program = tt

abbrev job : LockRecord
job = record {
  name = "job";
  holder = "a";
  token = 1;
  acquired_at = 10;
  deadline = 30;
  ttl = pos 20;
}

abbrev held : Table
held = record { waiting = []; locks = ("job", job) ∷ []; next = 1; emits = true }

abbrev holding : Fsm
holding = record { members = new 1 "a" "a:1"; locks = some held; leases = none }

-- A service without Raft, and the service of a leader.
abbrev alone : LockService
alone = record { unicode = ascii; raft = none; default_ttl = pos 15_000_000_000 }

-- What the holder's Unlock does to the node.
abbrev freed : Fsm → Fsm
freed f = (apply_release alone "job" "a" 1 f).0

abbrev leading : Leading
leading = record { is_leader = true; codec = one_codec; raft = at_once }

abbrev leader : LockService
leader = record alone { raft = some leading }

abbrev nobody : {Q A : Type 0} → Remote Q A
nobody = record {
  dial = λ addr. some dial_failed;
  answer = λ addr q. refused unavailable dial_failed;
}

abbrev for_b : LockRequest
for_b = record { name = "job"; holder = "b"; ttl_ms = pos 30_000 }

b_declined : (ask alone 20 for_b "b" holding).2 ≡ declined
unfolding program
b_declined = refl

b_declined_table : (ask alone 20 for_b "b" holding).0.locks ≡ some held
unfolding program
b_declined_table = refl

job_legal : Locks.valid_name ascii "job" ≡ none
unfolding program
job_legal = refl

b_answer :
    (try_lock leader nobody clock (λ f. f) for_b idle).2
    ≡ replied (record {
      acquired = true;
      held = false;
      fencing_token = 1;
      holder = "b";
      deadline_unix_ms = pos 1_767_403_230_000;
    })
unfolding program
b_answer = refl

still_waiting :
    is_waiting 7 (run ascii (wait 7 held) (releases "job" "b" 1 ∷ waits 3 ∷ [])).waiting ≡ true
unfolding program
still_waiting = refl

wait_misses_nothing_example :
    owner "job" (run ascii (wait 7 held) (releases "job" "b" 1 ∷ waits 3 ∷ [])) ≡ owner "job" held
wait_misses_nothing_example =
    wait_misses_nothing ascii 7 "job" held (releases "job" "b" 1 ∷ waits 3 ∷ [])
      (tt, ((λ e. omega (arith, e)), tt)) still_waiting

release_can_be_missed_example :
    (w : World) × Turns alone for_b "b" 7 w (asking, holding) × IsStuck alone for_b "b" 7 w
unfolding lookup
release_can_be_missed_example =
    release_can_be_missed alone for_b "b" 7 20 holding held job b_declined b_declined_table (tt, tt)
      job_legal refl

ttl_from_ms_lem_example :
    (0 < 20_000_000_000_000
      → 20_000_000_000_000 ≤ 86_400_000
      → ttl_from_ms alone (pos 20_000_000_000_000) (pos 5)
        ≡ pos (20_000_000_000_000 * nanos_per_ms))
    × (86_400_000 < 20_000_000_000_000
        → 20_000_000_000_000 * nanos_per_ms < 2 ^ 63
        → ttl_from_ms alone (pos 20_000_000_000_000) (pos 5) ≡ Locks.max_ttl)
    × (2 ^ 63 ≤ 20_000_000_000_000 * nanos_per_ms
        → 20_000_000_000_000 * nanos_per_ms < 2 ^ 64
        → ttl_from_ms alone (pos 20_000_000_000_000) (pos 5)
          ≡ Locks.clamp_ttl (pos 15_000_000_000) (pos 0))
    × (ttl_from_ms alone (pos 0) (pos 5) ≡ Locks.clamp_ttl (pos 5) (pos 15_000_000_000))
    × (ttl_from_ms alone (negsuc 20_000_000_000_000) (pos 5)
        ≡ Locks.clamp_ttl (pos 5) (pos 15_000_000_000))
ttl_from_ms_lem_example = ttl_from_ms_lem alone 20_000_000_000_000 (pos 5)

abbrev give_back : UnlockRequest
give_back = record { name = "job"; holder = "a"; fencing_token = 1 }

abbrev keep_on : RenewRequest
keep_on = record { name = "job"; holder = "a"; fencing_token = 1; ttl_ms = pos 0 }

acts_only_as_leader_example :
    (MayAct alone "job" holding ⊎ Untouched holding (try_lock alone nobody 20 freed for_b holding))
    × (MayAct alone "job" holding ⊎ Untouched holding (unlock alone nobody give_back holding))
    × (MayAct alone "job" holding ⊎ Untouched holding (renew alone nobody 20 keep_on holding))
acts_only_as_leader_example =
    acts_only_as_leader alone holding 20 freed nobody for_b nobody give_back nobody keep_on

-- The holder gives the lock back after b's entry and before b is answered.
abbrev not_there : LockResponse
not_there = held_response none

b_answer_late : (try_lock leader nobody clock freed for_b holding).2 ≡ replied not_there
unfolding program
b_answer_late = refl

try_lock_tells_example :
    let f₁ = (try_lock leader nobody clock (λ f. f) for_b holding).0 in
    let f' = (try_lock leader nobody clock freed for_b holding).0 in
    (f' ≡ freed f₁)
    × ((rec : LockRecord) × (get_in "job" f₁.locks ≡ some rec)
        × (false ≡ true
            → (rec.token ≡ 0)
              × (rec.holder ≡ "")
              × ("" ≡ holder_of holding.members "b")
              × (deadline_ms (get_in "job" f'.locks) ≡ pos 0))
        × (false ≡ false
            → (f₁ ≡ holding)
              × (rec.holder ≢ holder_of holding.members "b")
              × Shows "job" f' not_there))
try_lock_tells_example =
    try_lock_tells leader leading nobody clock freed for_b holding held not_there refl refl
      at_once-AppliesHere one_codec-RoundTrips (omega arith) refl b_answer_late
