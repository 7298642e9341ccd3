-- ===== src/Scheduler/Orchestrator/Examples.antt =====
-- The theorems about the orchestrator at concrete inputs, and tests.
use aviationwx_bridge.Prelude.{List, [], arith, false, none, refl, some, true, ◌∷◌, ◌≡◌}
use aviationwx_bridge.Queue.Names.{Name}
use aviationwx_bridge.Queue.Disk.{Os, list_files_sorted}
use aviationwx_bridge.Queue.State.{
  Queue, can_resume_capture, default_queue_config, get_capacity_percent, maybe_resume_capture,
  set_health, update_health_level,
}
use aviationwx_bridge.Queue.Intake.{new_queue, scan_directory}
use aviationwx_bridge.Queue.Manager.{
  create_queue, get_queue, new_manager, remove_queue as remove_managed,
}
use aviationwx_bridge.Scheduler.Gate.{new_capture_gate}
use aviationwx_bridge.Scheduler.Capture.{CaptureWorker, eligible_for_pending_gate_wake}
use aviationwx_bridge.Scheduler.Upload.{
  add_queue, new_upload_worker, set_max_concurrent, start_pool, remove_queue as remove_upload,
}
use aviationwx_bridge.Scheduler.Orchestrator.{
  NewCamera, Orchestrator, OrchestratorConfig, Worker, add_camera, initial_captures,
  new_capture_worker, new_orchestrator, remove_camera, set_max_concurrent_uploads, start_all,
}
use aviationwx_bridge.Scheduler.Orchestrator.Waking.{
  first_eligible, notify_capture_gate_released, notify_times, set_max_concurrent_captures,
  wake_worker,
}
use aviationwx_bridge.Scheduler.Orchestrator.Wakes.{WakesFirst, notify_capture_gate_released_lem}
use aviationwx_bridge.Scheduler.Orchestrator.Operations.{
  Call, IsConsistent, add_call, apply, captures_call, order_of, remove_call, run, start_call,
  uploads_call,
}
use aviationwx_bridge.Scheduler.Orchestrator.Late.{IsCapturedOnly, late_camera_is_not_uploaded}
use aviationwx_bridge.Scheduler.Orchestrator.Consistent.{run-IsConsistent}

abbrev any_os : Os
any_os = record { can_read = true; can_remove = λ n. true; free = λ dir. none }

abbrev camera_with : Name → NewCamera
camera_with id = record { camera_id = id; remote_path = []; interval_secs = 60; uploader = some 1 }

abbrev config : OrchestratorConfig
config = record {
  queue_max_total_mb = 100;
  queue_max_heap_mb = 400;
  timezone = [];
  auth_backoff_secs = 60;
  max_concurrent_uploads = 0;
  max_concurrent_captures = 0;
}

abbrev first_run : Orchestrator
first_run = new_orchestrator 1 7 config

-- two cameras, one of them removed and added again, and new limits
abbrev calls : List Call
calls =
    add_call any_os [] 5 (camera_with (b'b' ∷ []))
    ∷ add_call any_os [] 5 (camera_with (b'a' ∷ []))
    ∷ start_call 6
    ∷ remove_call (b'b' ∷ [])
    ∷ captures_call 7 20
    ∷ uploads_call 0
    ∷ add_call any_os [] 8 (camera_with (b'b' ∷ []))
    ∷ []

upload_order : order_of (run calls first_run).upload_worker ≡ (b'a' ∷ []) ∷ (b'b' ∷ []) ∷ []
unfolding run apply add_camera create_queue scan_directory new_queue list_files_sorted
    update_health_level maybe_resume_capture set_health get_capacity_percent can_resume_capture
    default_queue_config new_manager new_orchestrator new_upload_worker add_queue remove_camera
    remove_managed remove_upload start_all start_pool set_max_concurrent_captures notify_times
    set_max_concurrent_uploads new_capture_gate initial_captures notify_capture_gate_released
    first_eligible eligible_for_pending_gate_wake get_queue new_capture_worker set_max_concurrent
upload_order = refl

run-IsConsistent_example : IsConsistent (run calls first_run)
run-IsConsistent_example = run-IsConsistent calls 1 7 config (omega arith)

-- a worker that waits for the gate
abbrev waiting : CaptureWorker → Worker
waiting c = record {
  capture = record c { pending_capture = true };
  authority = 7;
  wake = false;
  running = true;
}

abbrev an_empty_queue : Queue
an_empty_queue = new_queue default_queue_config []

abbrev two_waiting : Orchestrator
two_waiting = record first_run {
  capture_workers =
      ((b'b' ∷ []), waiting (new_capture_worker an_empty_queue 60 3))
      ∷ ((b'a' ∷ []), waiting (new_capture_worker an_empty_queue 60 3))
      ∷ [];
}

wakes_a : (notify_capture_gate_released 4 two_waiting) ≡ wake_worker (some (b'a' ∷ [])) two_waiting
unfolding notify_capture_gate_released first_eligible eligible_for_pending_gate_wake get_queue
    new_orchestrator new_manager new_capture_worker new_queue
wakes_a = refl

notify_capture_gate_released_lem_example :
    WakesFirst 4 two_waiting (notify_capture_gate_released 4 two_waiting)
notify_capture_gate_released_lem_example = notify_capture_gate_released_lem 4 two_waiting

late_camera_is_not_uploaded_example : IsCapturedOnly (b'a' ∷ []) (
    add_camera any_os [] 9
      (camera_with (b'a' ∷ []))
      (run (uploads_call 3 ∷ []) (start_all 6 first_run)))
unfolding new_orchestrator
late_camera_is_not_uploaded_example =
    late_camera_is_not_uploaded 6 first_run (uploads_call 3 ∷ []) any_os [] 9
      (camera_with (b'a' ∷ [])) (omega arith) refl refl (tt, tt)

-- the addition of that test succeeds
late_camera_succeeds :
    (add_camera any_os [] 9
      (camera_with (b'a' ∷ []))
      (run (uploads_call 3 ∷ []) (start_all 6 first_run))).1
    ≡ true
unfolding run apply add_camera create_queue scan_directory new_queue list_files_sorted
    update_health_level maybe_resume_capture set_health get_capacity_percent can_resume_capture
    default_queue_config new_manager new_orchestrator new_upload_worker add_queue remove_camera
    remove_managed remove_upload start_all start_pool set_max_concurrent_captures notify_times
    set_max_concurrent_uploads
late_camera_succeeds = refl
