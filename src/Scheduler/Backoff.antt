-- ===== src/Scheduler/Backoff.antt =====
-- internal/scheduler/backoff.go, the camera state of types.go, and the failure path of capture.go.
-- The multiplier is a whole number (the program only uses 2.0), so `math.Pow` is an exact power.
-- `rand.Float64()` is `draw / draws`, a parameter of the call.
pub mod Bounds
use aviationwx_bridge.Prelude.{
  Bool, Instant, Option, false, if◌then◌else◌, ltb, none, second, some, true, zero_time, ℕ, ◌*◌,
  ◌+◌, ◌-◌, ◌/◌, ◌==◌, ◌^◌,
}

pub record BackoffConfig : Type 0 where
  pub initial_seconds : ℕ
  pub max_seconds : ℕ
  pub multiplier : ℕ
  pub jitter : Bool

unfoldable pub default_backoff_config : BackoffConfig
default_backoff_config = record {
  initial_seconds = 60;
  max_seconds = 3600;
  multiplier = 2;
  jitter = true;
}

-- `CameraState`; the id is left to the map that holds the state, and an error is its code.
pub record CameraState : Type 0 where
  pub last_success : Instant
  pub last_error : Option ℕ
  pub last_error_time : Instant
  pub next_attempt : Instant
  pub backoff_seconds : ℕ
  pub failure_count : ℕ
  pub success_count : ℕ
  pub is_backing_off : Bool

-- The values of `rand.Float64()` are the multiples of 2^-53 below 1.
abbrev pub draws : ℕ
draws = 2 ^ 53

-- the delay before the jitter: initial * multiplier ^ (failures - 1), capped
unfoldable pub base_backoff : BackoffConfig → ℕ → ℕ
base_backoff config failures =
    let backoff = config.initial_seconds * config.multiplier ^ (failures - 1) in
    if ltb config.max_seconds backoff then config.max_seconds else backoff

-- `int(backoff + backoff * 0.2 * rand.Float64())`
unfoldable pub calculate_backoff : ℕ → CameraState → BackoffConfig → ℕ
unfolding base_backoff
calculate_backoff draw state config =
    let backoff = base_backoff config state.failure_count in
    if state.failure_count == 0
    then 0
    else if config.jitter
    then backoff + backoff * draw / (5 * draws)
    else backoff

unfoldable pub update_backoff : Instant → ℕ → CameraState → BackoffConfig → CameraState
update_backoff now draw state config =
    let failed = record state { failure_count = state.failure_count + 1; is_backing_off = true } in
    let seconds = calculate_backoff draw failed config in
    record failed { backoff_seconds = seconds; next_attempt = now + seconds * second }

unfoldable pub reset_backoff : CameraState → CameraState
reset_backoff state = record state {
  failure_count = 0;
  success_count = state.success_count + 1;
  is_backing_off = false;
  backoff_seconds = 0;
  last_error = none;
  last_error_time = zero_time;
}

-- `handleCaptureError` of capture.go: it counts the failure, and `UpdateBackoff` counts it again
unfoldable pub handle_capture_error : Instant → ℕ → ℕ → CameraState → CameraState
handle_capture_error now draw error state =
    update_backoff now draw
      (record state {
        last_error = some error;
        last_error_time = now;
        failure_count = state.failure_count + 1;
      })
      default_backoff_config

-- the success branch of `capture` in capture.go
unfoldable pub handle_capture_success : Instant → CameraState → CameraState
handle_capture_success now state =
    reset_backoff (record state { last_success = now; last_error = none; failure_count = 0 })
