-- ===== src/Scheduler/Degraded/Activation.antt =====
-- When degraded mode is active: after enough failures in a row, from all cameras together.
use aviationwx_bridge.Prelude.{
  Instant, List, [], arith, if◌then◌else◌, leb, none, refl, some, true, ℕ, ◌+◌, ◌∷◌, ◌≡◌, ◌≤◌,
}
use aviationwx_bridge.Scheduler.Degraded.{
  DegradedMode, Outcome, failure, get_concurrency_limit, new_degraded_mode, observe, record_failure,
  record_success, run, success,
}

-- the failures since the last success, counted on top of `n`
abbrev pub streak : ℕ → List Outcome → ℕ
streak n [] = n
streak n (success ∷ os) = streak 0 os
streak n (failure now ∷ os) = streak (n + 1) os

record IsInStep (dm : DegradedMode) (n : ℕ) : Type 0 where
  enabled : dm.enabled ≡ true
  positive : 1 ≤ dm.failure_threshold
  counted : dm.failure_count ≡ n
  activated : dm.active ≡ leb dm.failure_threshold n

observe_failure-IsInStep :
    (dm : DegradedMode) (n : ℕ) (now : Instant)
    → IsInStep dm n
    → IsInStep (observe dm (failure now)) (n + 1)
unfolding observe record_failure
observe_failure-IsInStep dm n now h = ground arith

observe_success-IsInStep :
    (dm : DegradedMode) (n : ℕ) → IsInStep dm n → IsInStep (observe dm success) 0
unfolding observe record_success
observe_success-IsInStep dm n h = ground arith

run-IsInStep :
    (dm : DegradedMode) (n : ℕ) (os : List Outcome)
    → IsInStep dm n
    → IsInStep (run dm os) (streak n os)
unfolding run
run-IsInStep dm n [] h = h
run-IsInStep dm n (success ∷ os) h =
    run-IsInStep (observe dm success) 0 os (observe_success-IsInStep dm n h)
run-IsInStep dm n (failure now ∷ os) h =
    run-IsInStep (observe dm (failure now)) (n + 1) os (observe_failure-IsInStep dm n now h)

observe_settings :
    (dm : DegradedMode) (o : Outcome)
    → ((observe dm o).failure_threshold ≡ dm.failure_threshold)
      × ((observe dm o).concurrency_limit ≡ dm.concurrency_limit)
unfolding observe record_failure record_success
observe_settings dm success = ground arith
observe_settings dm (failure now) = ground arith

run_settings :
    (dm : DegradedMode) (os : List Outcome)
    → ((run dm os).failure_threshold ≡ dm.failure_threshold)
      × ((run dm os).concurrency_limit ≡ dm.concurrency_limit)
unfolding run
run_settings dm [] = (refl, refl)
run_settings dm (o ∷ os) = ground (arith, run_settings (observe dm o) os, observe_settings dm o)

-- An enabled degraded mode with a positive threshold, after any outcomes, is active exactly when
-- the failures since the last success have reached the threshold, and only then limits concurrency.
pub run_active :
    (threshold limit multiplier : ℕ) (os : List Outcome)
    → 1 ≤ threshold
    → let dm = run (new_degraded_mode true threshold limit multiplier) os in
      (dm.active ≡ leb threshold (streak 0 os))
      × (get_concurrency_limit dm ≡ (if leb threshold (streak 0 os) then some limit else none))
unfolding new_degraded_mode get_concurrency_limit
run_active threshold limit multiplier os h =
    let dm = new_degraded_mode true threshold limit multiplier in
    ground (arith, run-IsInStep dm 0 os (ground arith), run_settings dm os)
