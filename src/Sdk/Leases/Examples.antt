-- ===== src/Sdk/Leases/Examples.antt =====
-- The client's leases on concrete inputs: tests of the definitions.
use clusdr.Prelude.{
  ℕ, ◌+◌, true, false, ◌≡◌, refl, some, none, [], ◌∷◌, pos, lookup, insert, delete,
}
use clusdr.Fault.{ok, lease_not_held, not_held_here}
use clusdr.Clock.{from_unix_ms, duration_ms}
use clusdr.Grpc.{replied, refused, failed_precondition}
use clusdr.LeaseService.{GrantResponse}
use clusdr.Sdk.Retry.{Call, transient, next_backoff, retry_loop, retry}
use clusdr.Sdk.Locks.{ttl_ms}
use clusdr.Sdk.Leases.{
  Server, Lease, Client, lease, revoke, renew, drop, stop_renew, forget_lease, adopt_lease,
  lease_from_resp, renew_tick,
}

program : Unit {0}
unfolding from_unix_ms duration_ms transient next_backoff retry_loop retry lease revoke renew drop
    stop_renew forget_lease adopt_lease lease_from_resp renew_tick ttl_ms lookup insert delete
program = tt

abbrev granted : GrantResponse
granted = record {
  granted = true;
  held = false;
  fencing_token = 4;
  owner = "me";
  deadline_unix_ms = pos 0;
}

abbrev replies : {A : Type 0} → A → Call ℕ A
replies a now n = (now + 1_000_000, n + 1, replied a)

abbrev refuses : {A : Type 0} → Call ℕ A
refuses now n = (now, n, refused failed_precondition lease_not_held)

abbrev server : Server ℕ
server = record { grant = λ q. replies granted; renew = λ q. refuses; revoke = λ q. replies true }

abbrev job : Lease
job = record { name = "job"; owner = "me"; token = 4; deadline = 0; renewing = true }

abbrev client : Client
client = record { holder = "me"; request_timeout = 5_000_000_000; leased = ("job", job) ∷ [] }

abbrev bare : Client
bare = record client { leased = [] }

leased_job : lease server bare none "job" (pos 0) 0 0 ≡ (1_000_000, 1, client, ok job)
unfolding program
leased_job = refl

revoked_job : revoke server client none "job" 0 0 ≡ (1_000_000, 1, bare, none)
unfolding program
revoked_job = refl

renew_nothing : renew server bare none "job" 0 0 ≡ (0, 0, bare, some not_held_here)
unfolding program
renew_nothing = refl

stops_renewing :
    (renew_tick server "job" client 0 0).2.leased ≡ ("job", record job { renewing = false }) ∷ []
unfolding program
stops_renewing = refl
