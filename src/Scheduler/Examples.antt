-- ===== src/Scheduler/Examples.antt =====
-- The theorems about the scheduler at concrete inputs, and tests of its functions.
use aviationwx_bridge.Prelude.{
  List, [], arith, before, false, none, refl, second, true, ◌*◌, ◌+◌, ◌<◌, ◌∷◌, ◌≡◌, ◌≤◌,
}
use aviationwx_bridge.Scheduler.Gate.{
  Reach, World, begin, here, new_capture_gate, next, start, try_acquire,
}
use aviationwx_bridge.Scheduler.Gate.Bounds.{IsCounted, Reach-IsCounted}
use aviationwx_bridge.Scheduler.Degraded.{Outcome, failure, success}
use aviationwx_bridge.Scheduler.Backoff.{
  CameraState, base_backoff, calculate_backoff, default_backoff_config, handle_capture_error,
  update_backoff,
}
use aviationwx_bridge.Scheduler.Backoff.Bounds.{handle_capture_error_waits}

abbrev one_running : World
one_running = record { gate = record { limit = 1; in_use = 1 }; captures = 1 }

one_running_reached : Reach (start 1) one_running
unfolding start new_capture_gate try_acquire
one_running_reached = next here (begin (start 1) refl)

Reach-IsCounted_example : IsCounted one_running
Reach-IsCounted_example = Reach-IsCounted 1 one_running_reached

abbrev outcomes : List Outcome
outcomes = failure 10 ∷ success ∷ failure 20 ∷ failure 30 ∷ failure 40 ∷ []

abbrev fresh : CameraState
fresh = record {
  last_success = 0;
  last_error = none;
  last_error_time = 0;
  next_attempt = 0;
  backoff_seconds = 0;
  failure_count = 0;
  success_count = 0;
  is_backing_off = false;
}

-- The first failed capture waits 120 seconds, not the configured initial 60.
first_failure_waits_120 : (handle_capture_error 1000 0 7 fresh).backoff_seconds ≡ 120
unfolding handle_capture_error update_backoff calculate_backoff base_backoff default_backoff_config
first_failure_waits_120 = refl

handle_capture_error_waits_example :
    (500 < 1000 + base_backoff default_backoff_config (0 + 2) * second
      → before 500 (handle_capture_error 1000 5 7 fresh).next_attempt ≡ true)
    × (5 * 1000 + 6 * base_backoff default_backoff_config (0 + 2) * second ≤ 5 * 500
        → before 500 (handle_capture_error 1000 5 7 fresh).next_attempt ≡ false)
handle_capture_error_waits_example = handle_capture_error_waits 1000 5 7 500 fresh (omega arith)
