-- ===== src/LockService/Lifetimes.antt =====
-- The lifetime of a requested lock: ttlFromMs of grpcserver/locks.go.
use clusdr.Prelude.{ℕ, ◌*◌, ◌≤◌, ◌<◌, ◌^◌, ◌≡◌, refl, pos, negsuc, arith, int64}
use clusdr.Clock.{Duration, ms_duration, nanos_per_ms}
use clusdr.Locks
use clusdr.LockService.{LockService, ttl_from_ms}

-- A request for ms milliseconds, up to a day, gets exactly these; a longer one gets MaxTTL as long as the
-- product with a million fits an int64; but one whose product is in the upper half of the 64-bit words
-- wraps to a negative duration and gets the default lifetime, not the longest; and a request for none, or for a
-- negative number, gets what is to be used again, clamped.
pub ttl_from_ms_lem :
    (s : LockService) (ms : ℕ) (reuse : Duration)
    → (0 < ms → ms ≤ 86_400_000 → ttl_from_ms s (pos ms) reuse ≡ pos (ms * nanos_per_ms))
      × (86_400_000 < ms
          → ms * nanos_per_ms < 2 ^ 63
          → ttl_from_ms s (pos ms) reuse ≡ Locks.max_ttl)
      × (2 ^ 63 ≤ ms * nanos_per_ms
          → ms * nanos_per_ms < 2 ^ 64
          → ttl_from_ms s (pos ms) reuse ≡ Locks.clamp_ttl s.default_ttl (pos 0))
      × (ttl_from_ms s (pos 0) reuse ≡ Locks.clamp_ttl reuse s.default_ttl)
      × (ttl_from_ms s (negsuc ms) reuse ≡ Locks.clamp_ttl reuse s.default_ttl)
unfolding ttl_from_ms ms_duration int64 Locks.clamp_ttl
ttl_from_ms_lem s ms reuse =
    ((λ h k. ground arith), (λ h k. ground arith), (λ h k. ground arith), refl, refl)
