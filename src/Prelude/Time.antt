-- ===== src/Prelude/Time.antt =====
-- Go's `time.Time` and `time.Duration`. An instant is the count of nanoseconds since Go's zero time
-- (1 January of year 1), so that the zero value is 0. A duration is a count of nanoseconds.
-- The comparison of an instant with `now.Add(-d)` is written `t + d < now`, which is the same
-- over the integers and needs no truncated subtraction.
use Prim.Native.Nat.{ℕ, ◌*◌, ◌^◌}
use mathlib.Core.Bool.{Bool}
use aviationwx_bridge.Prelude.Tests.{ltb, ◌==◌}

abbrev pub Instant : Type 0
Instant = ℕ

abbrev pub Duration : Type 0
Duration = ℕ

abbrev pub second : Duration
second = 10 ^ 9

abbrev pub minute : Duration
minute = 60 * second

abbrev pub zero_time : Instant
zero_time = 0

abbrev pub is_zero : Instant → Bool
is_zero t = t == 0

-- t.Before(u)
abbrev pub before : Instant → Instant → Bool
before t u = ltb t u

-- t.After(u)
abbrev pub after : Instant → Instant → Bool
after t u = ltb u t
