-- ===== src/Clock/Health.antt =====
-- `TimeHealth` of internal/time/types.go. The answers of the servers are the environment's: an offset,
-- or none for an error.
use aviationwx_bridge.Prelude.{
  Bool, Duration, Instant, List, Option, [], false, if◌then◌else◌, is_zero, minute, none, second,
  some, zero_time, ℕ, ◌*◌, ◌==◌, ◌∷◌,
}
use aviationwx_bridge.Queue.Names.{Int64, pos}
use aviationwx_bridge.Clock.{abs_duration, at_most, sub}

pub record TimeHealth : Type 0 where
  pub healthy : Bool
  pub offset : Int64
  pub last_check : Instant
  pub last_good_sync : Instant
  pub max_offset : Duration
  pub stale_max_age : Duration

abbrev pub hour : Duration
hour = 60 * minute

-- `NewTimeHealth` by `MaxOffsetSeconds` and `StaleThresholdHours`
unfoldable pub new_time_health : ℕ → ℕ → TimeHealth
new_time_health max_offset_seconds stale_hours = record {
  healthy = false;
  offset = pos 0;
  last_check = zero_time;
  last_good_sync = zero_time;
  max_offset = if max_offset_seconds == 0 then 5 * second else max_offset_seconds * second;
  stale_max_age = if stale_hours == 0 then 24 * hour else stale_hours * hour;
}

-- the first server that answers
abbrev pub first_answer : List (Option Int64) → Option Int64
first_answer [] = none
first_answer (none ∷ answers) = first_answer answers
first_answer (some offset ∷ answers) = some offset

abbrev pub in_bounds : TimeHealth → Int64 → Bool
in_bounds th offset = at_most (abs_duration offset) th.max_offset

-- an answer within bounds makes the clock healthy; one out of bounds forgets the last good one
unfoldable pub note_answer : Instant → Int64 → TimeHealth → TimeHealth
note_answer now offset th = record th {
  offset = offset;
  last_check = now;
  healthy = in_bounds th offset;
  last_good_sync = if in_bounds th offset then now else zero_time;
}

-- no server answered: healthy for a while after the last good answer
unfoldable pub note_silence : Instant → TimeHealth → TimeHealth
note_silence now th = record th {
  last_check = now;
  healthy =
      if is_zero th.last_good_sync
      then false
      else at_most (sub now th.last_good_sync) th.stale_max_age;
}

unfoldable pub check : Instant → List (Option Int64) → TimeHealth → TimeHealth
check now answers th = elim (first_answer answers) [
  | some offset ↦ note_answer now offset th
  | none ↦ note_silence now th
]
