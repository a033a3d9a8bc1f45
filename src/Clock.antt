-- ===== src/Clock.antt =====
-- time.Time and time.Duration as the tables use them. An instant is the number of nanoseconds since
-- Go's zero time (1 January of the year 1, UTC), so that `IsZero` is the test for 0; instants before
-- it do not occur. A duration is an int64 of nanoseconds. `time.Now()` is an argument.
use clusdr.Prelude.{ℕ, suc, ◌+◌, ◌-◌, ◌*◌, ◌/◌, Bool, ltb, ◌==◌, ℤ, pos, negsuc, sub_ℕ, int64}

abbrev pub Time : Type 0
Time = ℕ

abbrev pub Duration : Type 0
Duration = ℤ

abbrev pub zero_time : Time
zero_time = 0

abbrev pub is_zero : Time → Bool
is_zero t = t == 0

-- `a.After(b)`.
abbrev pub after : Time → Time → Bool
after a b = ltb b a

-- `t.Add(d)`.
unfoldable pub add : Time → Duration → Time
add t (pos d) = t + d
add t (negsuc d) = t - suc d

abbrev pub nanos_per_ms : ℕ
nanos_per_ms = 1_000_000

-- Milliseconds from the zero time to the Unix epoch.
abbrev pub epoch_ms : ℕ
epoch_ms = 62_135_596_800_000

-- `time.UnixMilli(ms)`.
unfoldable pub from_unix_ms : ℤ → Time
from_unix_ms (pos ms) = (epoch_ms + ms) * nanos_per_ms
from_unix_ms (negsuc ms) = (epoch_ms - suc ms) * nanos_per_ms

-- `t.UnixMilli()`.
unfoldable pub to_unix_ms : Time → ℤ
to_unix_ms t = sub_ℕ (t / nanos_per_ms) epoch_ms

-- `time.Duration(ms) * time.Millisecond` for a positive ms: the int64 product wraps around.
unfoldable pub ms_duration : ℕ → Duration
ms_duration ms = int64 (ms * nanos_per_ms)

-- `d.Milliseconds()`, which truncates towards zero.
unfoldable pub duration_ms : Duration → ℤ
duration_ms (pos d) = pos (d / nanos_per_ms)
duration_ms (negsuc d) = sub_ℕ 0 (suc d / nanos_per_ms)
