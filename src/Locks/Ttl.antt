-- ===== src/Locks/Ttl.antt =====
-- ClampTTL of locks/table.go.
use clusdr.Prelude.{pos, ◌≤ℤ◌, ◌≡◌, arith}
use clusdr.Clock.{Duration}
use clusdr.Locks.{clamp_ttl, min_ttl, max_ttl, default_ttl}

-- The lifetime of a grant lies between MinTTL and MaxTTL whatever was asked for; a request in that
-- range is kept; a request that is not positive gives what the fallback gives, and one that is not
-- positive either gives DefaultTTL.
pub clamp_ttl_lem :
    (requested fallback : Duration)
    → (min_ttl ≤ℤ clamp_ttl requested fallback)
      × (clamp_ttl requested fallback ≤ℤ max_ttl)
      × (min_ttl ≤ℤ requested → requested ≤ℤ max_ttl → clamp_ttl requested fallback ≡ requested)
      × (requested ≤ℤ pos 0 → clamp_ttl requested fallback ≡ clamp_ttl fallback (pos 0))
      × (requested ≤ℤ pos 0 → fallback ≤ℤ pos 0 → clamp_ttl requested fallback ≡ default_ttl)
unfolding clamp_ttl
clamp_ttl_lem requested fallback =
    (ground arith, ground arith, λ h k. ground arith, λ h. ground arith, λ h k. ground arith)
