-- ===== src/Scheduler/Capture/Examples.antt =====
-- The theorems about the capture worker at concrete inputs.
use aviationwx_bridge.Prelude.{
  [], false, ltb, none, not, refl, second, some, true, ◌*◌, ◌+◌, ◌-◌, ◌<◌, ◌||◌, ◌≡◌, ◌⊎◌,
}
use aviationwx_bridge.Queue.Names.{unix_epoch}
use aviationwx_bridge.Queue.Disk.{Os, list_files_sorted}
use aviationwx_bridge.Queue.State.{Queue, default_queue_config, update_health_level}
use aviationwx_bridge.Queue.Intake.{new_queue, scan_directory, scanned_state, written}
use aviationwx_bridge.Queue.Tracking.{Tracks}
use aviationwx_bridge.Queue.Tracking.Reachable.{Reach-Tracks, scanned}
use aviationwx_bridge.Scheduler.Gate.{CaptureGate}
use aviationwx_bridge.Scheduler.Backoff.{CameraState}
use aviationwx_bridge.Scheduler.Capture.{
  CaptureEnv, CaptureWorker, capture, on_tick, on_wake, picture,
}
use aviationwx_bridge.Scheduler.Capture.Job.{IsReady, Ran, capture_lem, on_event_waits}

abbrev good_disk : Os
good_disk = record { can_read = true; can_remove = λ n. true; free = λ d. none }

abbrev empty_queue : Queue
empty_queue = update_health_level (scanned_state [] (new_queue default_queue_config []))

empty_found : scan_directory good_disk (new_queue default_queue_config []) ≡ some empty_queue
unfolding scan_directory new_queue list_files_sorted
empty_found = refl

empty-Tracks : Tracks empty_queue
empty-Tracks = Reach-Tracks default_queue_config (scanned good_disk [] empty_queue tt empty_found)

abbrev fresh_state : CameraState
fresh_state = record {
  last_success = 0;
  last_error = none;
  last_error_time = 0;
  next_attempt = 0;
  backoff_seconds = 0;
  failure_count = 0;
  success_count = 0;
  is_backing_off = false;
}

abbrev worker : CaptureWorker
worker = record {
  queue = empty_queue;
  state = fresh_state;
  interval = 60 * second;
  captures_total = 0;
  captures_failed = 0;
  exif_write_failed = 0;
  next_capture_time = 0;
  currently_capturing = false;
  last_capture_time = 0;
  gated = true;
  pending_capture = false;
}

abbrev good_day : CaptureEnv
good_day = record {
  throttled_out = false;
  start_time = unix_epoch;
  answer = picture 5000;
  exif = none;
  to_utc = λ t. t;
  authority = none;
  ntp = none;
  processed = some 4000;
  stamped = none;
  disk = good_disk;
  write_env = record { first_write = written; second_write = written; rename = true };
  now = unix_epoch + second;
}

abbrev gate_of_two : CaptureGate
gate_of_two = record { limit = 2; in_use = 1 }

capture_lem_example :
    ((capture good_day gate_of_two worker).0.in_use ≡ 1)
    × Ran (not true || ltb 1 2) good_day worker (capture good_day gate_of_two worker).1
capture_lem_example = capture_lem good_day gate_of_two worker empty-Tracks refl

abbrev backed_off : CaptureWorker
backed_off = record worker { state = record fresh_state { next_attempt = 900 } }

on_event_waits_example :
    (((on_tick good_day 100 gate_of_two backed_off).worker.captures_total ≡ 0)
      ⊎ IsReady 100 backed_off)
    × (((on_wake good_day 100 gate_of_two backed_off).worker.captures_total ≡ 0)
        ⊎ IsReady 100 backed_off)
    × (false ≡ false
        → backed_off.queue.capture_paused ≡ false
        → 100 < 900
        → ((on_wake good_day 100 gate_of_two backed_off).worker.pending_capture ≡ false)
          × ((on_wake good_day 100 gate_of_two backed_off).wake_after ≡ some (900 - 100)))
on_event_waits_example = on_event_waits good_day 100 gate_of_two backed_off
