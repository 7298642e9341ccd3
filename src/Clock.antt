-- ===== src/Clock.antt =====
-- internal/time: whether the clock of the bridge can be trusted, and which time an image gets. A
-- `time.Duration` with a sign is an `Int64`, whose magnitude is the distance from 0.
pub mod Health
pub mod Authority
pub mod Sync
pub mod Choice
mod Examples
use aviationwx_bridge.Prelude.{Bool, Duration, Instant, if◌then◌else◌, leb, ltb, true, ℕ, ◌-◌, ◌^◌}
use aviationwx_bridge.Queue.Names.{Int64, neg, pos}

-- the largest magnitude of a negative duration
abbrev pub min_magnitude : ℕ
min_magnitude = 2 ^ 63

-- `-d` of the least duration is that duration again
abbrev pub abs_duration : Int64 → Int64
abs_duration (pos d) = pos d
abs_duration (neg d) = if leb min_magnitude d then neg d else pos d

-- `d <= limit` for a limit that is not negative
abbrev pub at_most : Int64 → Duration → Bool
at_most (pos d) limit = leb d limit
at_most (neg d) limit = true

-- `t.Sub(u)`, which stops at the ends of the range
unfoldable pub sub : Instant → Instant → Int64
sub t u =
    if ltb t u
    then neg (if ltb min_magnitude (u - t) then min_magnitude else u - t)
    else pos (if ltb (t - u) min_magnitude then t - u else min_magnitude - 1)
