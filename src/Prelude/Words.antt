-- ===== src/Prelude/Words.antt =====
-- Go's 64-bit words: `uint64` with wrap-around, and `int64` as the integer that its bits stand for.
use Prim.Native.Nat.{ℕ, ◌+◌, ◌-◌, ◌%◌, ◌^◌, ◌<◌}
use mathlib.Core.Path.{◌≡◌}
use native.Mathlib.Omega.{arith}
use clusdr.Prelude.Tests.{ltb, if◌then◌else◌}
use clusdr.Prelude.Int.{ℤ, pos, negsuc}

-- x++ on a uint64.
abbrev pub inc_uint64 : ℕ → ℕ
inc_uint64 x = (x + 1) % 2 ^ 64

-- The int64 with the low 64 bits of a number.
unfoldable pub int64 : ℕ → ℤ
int64 n = if ltb (n % 2 ^ 64) (2 ^ 63) then pos (n % 2 ^ 64) else negsuc (2 ^ 64 - 1 - n % 2 ^ 64)

pub int64_small : (n : ℕ) → n < 2 ^ 63 → int64 n ≡ pos n
unfolding int64
int64_small n h = ground arith
