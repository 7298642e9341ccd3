-- ===== src/Scheduler/Degraded.antt =====
-- internal/scheduler/degraded.go. The interval multiplier is a whole number here, 1 for none, and
-- `GetConcurrencyLimit` returns -1 for no limit, which is `none`.
pub mod Activation
use aviationwx_bridge.Prelude.{
  Bool, Instant, List, Option, [], false, if◌then◌else◌, leb, none, not, some, true, zero_time, ℕ,
  ◌&&◌, ◌+◌, ◌∷◌,
}

pub record DegradedMode : Type 0 where
  pub enabled : Bool
  pub failure_threshold : ℕ
  pub concurrency_limit : ℕ
  pub slow_interval_multiplier : ℕ
  pub failure_count : ℕ
  pub active : Bool
  pub last_failure_time : Instant

unfoldable pub new_degraded_mode : Bool → ℕ → ℕ → ℕ → DegradedMode
new_degraded_mode enabled threshold limit multiplier = record {
  enabled = enabled;
  failure_threshold = threshold;
  concurrency_limit = limit;
  slow_interval_multiplier = multiplier;
  failure_count = 0;
  active = false;
  last_failure_time = zero_time;
}

unfoldable pub record_failure : Instant → DegradedMode → DegradedMode
record_failure now dm =
    if not dm.enabled
    then dm
    else let counted = record dm {
      failure_count = dm.failure_count + 1;
      last_failure_time = now;
    } in
      if leb counted.failure_threshold counted.failure_count && not counted.active
      then record counted { active = true }
      else counted

unfoldable pub record_success : DegradedMode → DegradedMode
record_success dm =
    if not dm.enabled
    then dm
    else let cleared = record dm { failure_count = 0 } in
      if cleared.active then record cleared { active = false } else cleared

unfoldable pub get_concurrency_limit : DegradedMode → Option ℕ
get_concurrency_limit dm = if not dm.active then none else some dm.concurrency_limit

unfoldable pub get_interval_multiplier : DegradedMode → ℕ
get_interval_multiplier dm = if not dm.active then 1 else dm.slow_interval_multiplier

pub data Outcome : Type 0 where
  success : Outcome
  failure : Instant → Outcome

unfoldable pub observe : DegradedMode → Outcome → DegradedMode
observe dm success = record_success dm
observe dm (failure now) = record_failure now dm

unfoldable pub run : DegradedMode → List Outcome → DegradedMode
run dm [] = dm
run dm (o ∷ os) = run (observe dm o) os
