-- ===== src/Sdk/Locks/Examples.antt =====
-- The client on concrete inputs: tests of the definitions, and the theorems at work.
use clusdr.Prelude.{
  ◌<◌, byte_len, int64, values, sort_by, str_lt, ℕ, zero, suc, ◌+◌, ◌≤◌, ◌≡◌, ◌≢◌, ◌⊎◌, true, false,
  refl, some, none, [], ◌∷◌, String, pos, arith, lookup, insert, delete, if◌then◌else◌,
}
use clusdr.Fault.{Error, ok, lock_not_held, dial_failed}
use clusdr.Clock.{add, to_unix_ms, ms_duration, Time, from_unix_ms, duration_ms}
use clusdr.Grpc.{
  Leading, Remote, reject_if_observer, is_observer, unix_ms, Reply, replied, refused,
  failed_precondition, unavailable,
}
use clusdr.LockService.{LockResponse}
use clusdr.Names.{ascii, is_name_char, first_bad}
use clusdr.Locks
use clusdr.Locks.{LockRecord}
use clusdr.Membership.{new, list_members, normalize_role}
use clusdr.Consensus.Command.{deadline_of, ttl_of}
use clusdr.Consensus.Fsm.{Fsm}
use clusdr.Consensus.Fsm as Fsms
use clusdr.Consensus.Node.{lock_result, propose, apply_lock_acquire}
use clusdr.Consensus.Node as Nodes
use clusdr.Consensus.Node.Fixtures.{
  clock, one_codec, at_once, idle as idle_node, one_codec-RoundTrips, at_once-AppliesHere,
}
use clusdr.LockService.{
  UnlockRequest, LockService, get_in, ttl_from_ms, apply_acquire, grant_response,
}
use clusdr.LockService.Calls.{guarded, try_lock_here}
use clusdr.LockService.Calls as Handlers
use clusdr.Sdk.Locks.Served.{over_node, client_holds_lock}
use clusdr.Sdk.Retry.{Call, transient, next_backoff, retry_loop, retry, enough}
use clusdr.Sdk.Retry.Ends.{retry-Ended}
use clusdr.Sdk.Locks.{
  Server, Lock, Client, with_rpc, request, lock, try_lock, unlock, unlock_request, renew_tick,
  release, stop_renew, forget, adopt, lock_from_resp, ttl_ms, renew_interval,
}
use clusdr.Sdk.Locks.Stale.{idle, is_over, lost_lock_is_given_back}
use clusdr.Sdk.Locks.Unlocking.{unlocking, unlock_forgets}

program : Unit {0}
unfolding from_unix_ms duration_ms transient next_backoff retry_loop retry lock unlock renew_tick
    release stop_renew forget adopt lock_from_resp ttl_ms renew_interval lookup insert delete
program = tt

abbrev five : ℕ
five = 5

-- A server that is away for the first two requests, and takes 10 ms for each; its state counts them.
abbrev busy : {A : Type 0} → A → Call ℕ A
busy a now zero = (now + 10_000_000, 1, refused unavailable dial_failed)
busy a now (suc zero) = (now + 10_000_000, 2, refused unavailable dial_failed)
busy a now (suc (suc n)) = (now + 10_000_000, 2, replied a)

third_time :
    retry (busy five) 1_000_000_000 (enough 1_000_000_000 0) 0 0
    ≡ some (180_000_000, 2, replied five)
unfolding program
third_time = refl

cut_short :
    retry (busy five) 100_000_000 (enough 100_000_000 0) 0 0
    ≡ some (100_000_000, 2, refused unavailable dial_failed)
unfolding program
cut_short = refl

busy_on : (t : Time) (w : ℕ) → t ≤ (busy five t w).0
busy_on t zero = omega arith
busy_on t (suc zero) = omega arith
busy_on t (suc (suc n)) = omega arith

retry-Ended_example :
    (r : Time × ℕ × Reply ℕ) × (retry (busy five) 1_000_000_000 (enough 1_000_000_000 0) 0 0
      ≡ some r)
    × (0 ≤ r.0)
    × ((transient r.2 ≡ false) ⊎ (1_000_000_000 ≤ r.0))
retry-Ended_example = retry-Ended (busy five) 1_000_000_000 0 0 busy_on

abbrev granted : LockResponse
granted = record {
  acquired = true;
  held = false;
  fencing_token = 4;
  holder = "me";
  deadline_unix_ms = pos 0;
}

abbrev refuses : {A : Type 0} → Call ℕ A
refuses now n = (now, n, refused failed_precondition lock_not_held)

-- A server that grants, and refuses everything else.
abbrev server : Server ℕ
server = record {
  lock = λ q. busy granted;
  try_lock = λ q. busy granted;
  unlock = λ q. refuses;
  renew = λ q. refuses;
}

abbrev job : Lock
job = record { name = "job"; holder = "me"; token = 4; deadline = 0; renewing = true }

abbrev client : Client
client = record { holder = "me"; request_timeout = 5_000_000_000; held = ("job", job) ∷ [] }

got_job :
    lock server (record client { held = [] }) none "job" (pos 0) 0 0
    ≡ (180_000_000, 2, client, ok job)
unfolding program
got_job = refl

five_seconds : renew_interval (pos 15_000_000_000) (pos 0) ≡ 5_000_000_000
unfolding program
five_seconds = refl

lost_lock_is_given_back_example :
    let c' = (renew_tick server "job" client 9 0).2 in
    lock server c' none "job" (pos 0) 20 0 ≡ (20, 0, c', ok (idle job))
unfolding lookup
lost_lock_is_given_back_example =
    lost_lock_is_given_back server server client "job" job 9 0 lock_not_held none (pos 0) 20 0 refl
      refl refl

unlock_forgets_example :
    let r = request (server.unlock (unlock_request job)) (with_rpc client none 9) 9 0 in
    let c' = (unlock server client none "job" 9 0).2 in
    (lookup "job" c'.held ≡ (if is_over r.2 then none else some (idle job)))
    × ((k : String) → k ≢ "job" → lookup k c'.held ≡ lookup k client.held)
    × ((n : LockService) (remote : Remote UnlockRequest (Unit {0})) (others : Server Fsm) (f : Fsm)
          (e : Error)
        → 9 < with_rpc client none 9
        → Locks.valid_name n.unicode "job" ≡ none
        → reject_if_observer f.members ≡ some e
        → let r' = unlock (unlocking n remote others) client none "job" 9 f in
          (r'.1 ≡ f) × (lookup "job" r'.2.held ≡ none))
unfolding lookup
unlock_forgets_example = unlock_forgets server client none job 9 0 refl (tt, tt)

-- The client "b" over a node that leads, with a raft that commits at once.
abbrev leading : Leading
leading = record { is_leader = true; codec = one_codec; raft = at_once }

abbrev service : LockService
service = record { unicode = ascii; raft = some leading; default_ttl = pos 15_000_000_000 }

abbrev nobody : {Q A : Type 0} → Remote Q A
nobody = record {
  dial = λ addr. some dial_failed;
  answer = λ addr q. refused unavailable dial_failed;
}

abbrev away : {A : Type 0} → Call Fsm A
away now f = (now, f, refused unavailable dial_failed)

abbrev others : Server Fsm
others = record { lock = λ q. away; try_lock = λ q. away; unlock = λ q. away; renew = λ q. away }

-- The observer "o", whose table has the lock of the client "me".
abbrev watching : Fsm
watching = record {
  members = record {
    self_id = "o";
    leader_id = "";
    members =
        (
          "o",
          record {
            id = "o";
            address = "o:1";
            status = "alive";
            leader = false;
            role = "observer";
            joined_at = 1;
          },
        )
        ∷ [];
    dropped = [];
    emits = true;
  };
  locks = some (record {
    waiting = [];
    locks =
        (
          "job",
          record {
            name = "job";
            holder = "me";
            token = 4;
            acquired_at = 1;
            deadline = 90;
            ttl = pos 80;
          },
        )
        ∷ [];
    next = 4;
    emits = true;
  });
  leases = none;
}

still_held_and_forgotten :
    let r = unlock (unlocking service nobody others) client none "job" 9 watching in
    (r.1 ≡ watching) × (lookup "job" r.2.held ≡ none)
unfolding program Locks.valid_name is_name_char first_bad byte_len reject_if_observer is_observer
    values sort_by list_members normalize_role Handlers.unlock guarded unlock
still_held_and_forgotten = (refl, refl)

abbrev bare : Client
bare = record { holder = "b"; request_timeout = 5_000_000_000; held = [] }

abbrev got : Lock
got = record {
  name = "job";
  holder = "b";
  token = 1;
  deadline = clock + 30_000_000_000;
  renewing = true;
}

program_over_node : Unit {0}
unfolding program Locks.acquire Locks.valid_name Locks.add_lock Locks.clamp_ttl Locks.new
    is_name_char first_bad byte_len int64 values sort_by str_lt add to_unix_ms ms_duration new
    list_members normalize_role deadline_of ttl_of Fsms.apply Fsms.apply_command Fsms.apply_to
    Fsms.on_locks Fsms.apply_lock lock_result Nodes.apply_lock propose apply_lock_acquire
    reject_if_observer is_observer unix_ms ttl_from_ms apply_acquire grant_response guarded
    try_lock_here Handlers.try_lock try_lock
program_over_node = tt

got_it :
    (try_lock
      (over_node service nobody others)
      bare
      none
      "job"
      (pos 30_000_000_000)
      clock
      idle_node).3
    ≡ ok (got, true)
unfolding program_over_node
got_it = refl

nothing_held : lookup "job" bare.held ≡ none
unfolding lookup
nothing_held = refl

client_holds_lock_example :
    let r =
      try_lock
        (over_node service nobody others)
        bare
        none
        "job"
        (pos 30_000_000_000)
        clock
        idle_node in
    ((rec : LockRecord) × (get_in "job" r.1.locks ≡ some rec)
      × (rec.token ≡ 1)
      × (rec.holder ≡ "b"))
    × (lookup "job" r.2.held ≡ some got)
client_holds_lock_example =
    client_holds_lock service leading nobody others bare none "job" (pos 30_000_000_000) clock
      idle_node got refl refl at_once-AppliesHere one_codec-RoundTrips (omega arith) nothing_held
      got_it
