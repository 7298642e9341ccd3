-- ===== src/Scheduler/Backoff/Bounds.antt =====
-- How long a camera waits after a failure, and when it is tried again.
use native.Mathlib.Nat.{
  pow-zero, pow-suc, mul-pos, mul-div-le, le_of_mul-le-mul_left, mul-le-mul_left,
}
use aviationwx_bridge.Prelude.{
  Instant, List, [], arith, before, false, length, second, some, suc, true, zero, ℕ, ◌*◌, ◌+◌, ◌-◌,
  ◌/◌, ◌<◌, ◌^◌, ◌∷◌, ◌≡◌, ◌≤◌,
}
use aviationwx_bridge.Scheduler.Backoff.{
  BackoffConfig, CameraState, base_backoff, calculate_backoff, default_backoff_config, draws,
  handle_capture_error, handle_capture_success, reset_backoff, update_backoff,
}

-- a fraction below one of `b / 5`, rounded down
jitter-le : (b draw d : ℕ) → draw < d → 5 * (b * draw / (5 * d)) ≤ b
jitter-le b draw d h =
    le_of_mul-le-mul_left {k = d}
      (omega
        (arith, mul-div-le (b * draw) (5 * d), mul-le-mul_left {m = draw} {n = d} b (omega arith)))
      (omega arith)

base_backoff-le : (config : BackoffConfig) (n : ℕ) → base_backoff config n ≤ config.max_seconds
unfolding base_backoff
base_backoff-le config n = ground arith

-- With at least one failure the delay is at least the capped exponential delay and exceeds it by at
-- most a fifth; with none it is 0. `draw` is any value that `rand.Float64` returns.
pub calculate_backoff_bounds :
    (draw : ℕ) (state : CameraState) (config : BackoffConfig)
    → draw < draws
    → (state.failure_count ≡ 0 → calculate_backoff draw state config ≡ 0)
      × (0 < state.failure_count
          → (base_backoff config state.failure_count ≤ calculate_backoff draw state config)
            × (5 * calculate_backoff draw state config
                ≤ 6 * base_backoff config state.failure_count)
            × (base_backoff config state.failure_count ≤ config.max_seconds))
unfolding calculate_backoff
calculate_backoff_bounds draw state config h =
    let b = base_backoff config state.failure_count in
    ground (arith, jitter-le b draw draws h, base_backoff-le config state.failure_count)

pow-pos : (m n : ℕ) → 0 < m → 0 < m ^ n
pow-pos m zero h = rw pow-zero (omega arith)
pow-pos m (suc n) h = rw pow-suc (mul-pos (pow-pos m n h) h)

base_backoff-pos :
    (config : BackoffConfig) (n : ℕ)
    → 0 < config.initial_seconds
    → 0 < config.max_seconds
    → 0 < config.multiplier
    → 0 < base_backoff config n
unfolding base_backoff
base_backoff-pos config n p q r = ground (arith, mul-pos p (pow-pos config.multiplier (n - 1) r))

-- After a failed capture the time is before the next attempt, at which the loop of the worker captures
-- again, until the base delay has passed, and no longer once 6/5 of it have passed; the base delay is
-- that of the old failure count plus two.
pub handle_capture_error_waits :
    (now draw error t : ℕ) (s : CameraState)
    → draw < draws
    → (t < now + base_backoff default_backoff_config (s.failure_count + 2) * second
        → before t (handle_capture_error now draw error s).next_attempt ≡ true)
      × (5 * now + 6 * base_backoff default_backoff_config (s.failure_count + 2) * second ≤ 5 * t
          → before t (handle_capture_error now draw error s).next_attempt ≡ false)
unfolding handle_capture_error update_backoff default_backoff_config
handle_capture_error_waits now draw error t s h =
    let failed : CameraState = record s {
      last_error = some error;
      last_error_time = now;
      failure_count = s.failure_count + 1 + 1;
      is_backing_off = true;
    } in
    let two : s.failure_count + 1 + 1 ≡ s.failure_count + 2 = omega arith in
    let pos = base_backoff-pos default_backoff_config (s.failure_count + 2) in
    ground (arith, calculate_backoff_bounds draw failed default_backoff_config h, pos, two)

-- every recorded failure: when it happened, the random draw and the error
abbrev pub Failure : Type 0
Failure = ℕ × ℕ × ℕ

pub fail_all : CameraState → List Failure → CameraState
fail_all s [] = s
fail_all s ((now, draw, error) ∷ fs) = fail_all (handle_capture_error now draw error s) fs

-- After a run of failed captures the failure count has grown by twice the number of failures, and
-- one success sets it to 0, ends the backoff and counts one success.
pub failure_count-fail_all :
    (s : CameraState) (fs : List Failure) (now : Instant)
    → ((fail_all s fs).failure_count ≡ s.failure_count + 2 * length fs)
      × ((handle_capture_success now (fail_all s fs)).failure_count ≡ 0)
      × ((handle_capture_success now (fail_all s fs)).is_backing_off ≡ false)
      × ((handle_capture_success now (fail_all s fs)).success_count ≡ s.success_count + 1)
unfolding fail_all handle_capture_success reset_backoff handle_capture_error update_backoff
failure_count-fail_all s [] now = ground arith
failure_count-fail_all s ((t, draw, error) ∷ fs) now =
    ground (arith, failure_count-fail_all (handle_capture_error t draw error s) fs now)
