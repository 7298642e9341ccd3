-- ===== src/Scheduler/Orchestrator/Late.antt =====
-- A camera that is added after the start, when there was none at the start.
use aviationwx_bridge.Prelude.{
  All, Bool, Bool-cases, Instant, List, Option, Option-cases, [], arith, false, if◌then◌else◌, inl,
  inr, ltb, none, refl, some, suc, true, zero, ℕ, ◌-◌, ◌<◌, ◌∷◌, ◌≡◌,
}
use aviationwx_bridge.Queue.Names.{Name, is_some, name_eq}
use aviationwx_bridge.Queue.Names.Table.{find, find-store_self}
use aviationwx_bridge.Queue.Disk.{Dir, Os}
use aviationwx_bridge.Queue.State.{default_queue_config}
use aviationwx_bridge.Queue.Manager.{
  CreateResult, QueueManager, already_exists, create_queue, created, get_queue, scan_failed,
}
use aviationwx_bridge.Scheduler.Gate.{CaptureGate}
use aviationwx_bridge.Scheduler.Capture.{CaptureWorker, LoopResult, on_tick, on_wake}
use aviationwx_bridge.Scheduler.Orchestrator.{
  NewCamera, Orchestrator, Worker, add_camera, remove_camera, set_bridge_timezone,
  set_camera_uploader, set_max_concurrent_uploads, set_time_authority, set_time_health, start_all,
  stop_all, with_queue,
}
use aviationwx_bridge.Scheduler.Orchestrator.Waking.{
  change_worker, clamp_captures, first_eligible, is_eligible, limited, notify_capture_gate_released,
  notify_times, put_back, set_max_concurrent_captures, sorted_ids, tick_worker, wake_event,
  wake_worker, with_shared, worker_event,
}
use aviationwx_bridge.Scheduler.Orchestrator.Operations.{
  Call, add_call, apply, authority_call, captures_call, health_call, remove_call, run, start_call,
  stop_call, tick_call, timezone_call, uploader_call, uploads_call, wake_call,
}

-- no second start
abbrev pub IsNoStart : Call → Type 0
IsNoStart (start_call now) = ⊥
IsNoStart _ = Unit

-- started at that time, and no uploads run
abbrev IsIdle : Instant → Orchestrator → Type 0
IsIdle t o = (o.upload_running ≡ false) × (o.start_time ≡ t)

wake_worker-IsIdle :
    (t : Instant) (found : Option Name) (o : Orchestrator)
    → IsIdle t o
    → IsIdle t (wake_worker found o)
wake_worker-IsIdle t none o h = h
wake_worker-IsIdle t (some id) o h = h

notify-IsIdle :
    (t now : Instant) (o : Orchestrator)
    → IsIdle t o
    → IsIdle t (notify_capture_gate_released now o)
unfolding notify_capture_gate_released
notify-IsIdle t now o h =
    wake_worker-IsIdle t (first_eligible (is_eligible now o) (sorted_ids o.capture_workers)) o h

notify_times-IsIdle :
    (t : Instant) (n : ℕ) (now : Instant) (o : Orchestrator)
    → IsIdle t o
    → IsIdle t (notify_times n now o)
unfolding notify_times
notify_times-IsIdle t zero now o h = h
notify_times-IsIdle t (suc n) now o h =
    notify_times-IsIdle t n now (notify_capture_gate_released now o) (notify-IsIdle t now o h)

worker_event-IsIdle :
    (t now : Instant) (loop : CaptureGate → CaptureWorker → LoopResult) (id : Name)
    (found : Option Worker) (o : Orchestrator)
    → IsIdle t o
    → IsIdle t (worker_event now loop id found o)
worker_event-IsIdle t now loop id none o h = h
worker_event-IsIdle t now loop id (some w) o h =
    let shared = with_shared (get_queue id o.queue_manager) w.capture in
    let r = loop o.capture_gate shared in
    elim (Bool-cases (ltb shared.captures_total r.worker.captures_total)) [
      | inl e ↦ rw e (notify-IsIdle t now (put_back id r o) h)
      | inr e ↦ rw e h
    ]

with_queue-IsIdle :
    (t now : Instant) (cam : NewCamera) (r : QueueManager × CreateResult) (o : Orchestrator)
    → IsIdle t o
    → IsIdle t (with_queue now cam r o).0
with_queue-IsIdle t now cam (m, created q) o h = h
with_queue-IsIdle t now cam (m, already_exists) o h = h
with_queue-IsIdle t now cam (m, scan_failed) o h = h

health-IsIdle :
    (t : Instant) (new_authority : Name → Option ℕ) (zone : Name) (o : Orchestrator)
    → IsIdle t o
    → IsIdle t (set_time_health new_authority zone o)
unfolding set_time_health set_time_authority
health-IsIdle t new_authority zone o h =
    let tz = if name_eq o.config.timezone [] then zone else o.config.timezone in
    elim (Option-cases (new_authority tz)) [
      | inl e ↦ rw (e, set_time_health) h
      | inr (a, e) ↦ rw (e, set_time_health) h
    ]

apply-IsIdle :
    (t : Instant) (c : Call) (o : Orchestrator) → IsNoStart c → IsIdle t o → IsIdle t (apply c o)
unfolding apply add_camera remove_camera set_bridge_timezone set_max_concurrent_captures
    set_max_concurrent_uploads set_camera_uploader set_time_authority stop_all tick_worker
    wake_event
apply-IsIdle t (add_call os dir now cam) o n h =
    with_queue-IsIdle t now cam
      (create_queue os cam.camera_id default_queue_config dir o.queue_manager) o h
apply-IsIdle t (remove_call id) o n h = h
apply-IsIdle t (captures_call now m) o n h =
    notify_times-IsIdle t (clamp_captures m - o.capture_gate.limit) now
      (limited (clamp_captures m) o) h
apply-IsIdle t (uploads_call m) o n h = h
apply-IsIdle t (uploader_call id u) o n h = h
apply-IsIdle t (timezone_call tz) o n h = h
apply-IsIdle t (authority_call a) o n h = h
apply-IsIdle t (health_call f zone) o n h = health-IsIdle t f zone o h
apply-IsIdle t (start_call now) o n h = absurd n
apply-IsIdle t stop_call o n h = (refl, h.1)
apply-IsIdle t (tick_call env now id) o n h =
    worker_event-IsIdle t env.now (on_tick env now) id (find id o.capture_workers) o h
apply-IsIdle t (wake_call env now id) o n h =
    let emptied = record o {
      capture_workers = change_worker id (λ w. record w { wake = false }) o.capture_workers;
    } in
    worker_event-IsIdle t env.now (on_wake env now) id (find id emptied.capture_workers) emptied h

run-IsIdle :
    (t : Instant) (cs : List Call) (o : Orchestrator)
    → All IsNoStart cs
    → IsIdle t o
    → IsIdle t (run cs o)
unfolding run
run-IsIdle t [] o n h = h
run-IsIdle t (c ∷ cs) o n h = run-IsIdle t cs (apply c o) n.1 (apply-IsIdle t c o n.0 h)

-- a camera that was added is captured, but nothing is uploaded
abbrev pub IsCapturedOnly : Name → Orchestrator × Bool → Type 0
IsCapturedOnly id (o, true) =
    ((w : Worker) × (find id o.capture_workers ≡ some w) × (w.running ≡ true))
    × (is_some o.upload_worker ≡ true)
    × (o.upload_running ≡ false)
IsCapturedOnly id (o, false) = o.upload_running ≡ false

added-IsCapturedOnly :
    (t now : Instant) (cam : NewCamera) (r : QueueManager × CreateResult) (o : Orchestrator)
    → 0 < t
    → IsIdle t o
    → IsCapturedOnly cam.camera_id (with_queue now cam r o)
added-IsCapturedOnly t now cam (m, created q) o p h =
    ((_, find-store_self cam.camera_id _ o.capture_workers, rw h.1 (ground arith)), refl, h.0)
added-IsCapturedOnly t now cam (m, already_exists) o p h = h.0
added-IsCapturedOnly t now cam (m, scan_failed) o p h = h.0

-- If the orchestrator is started, past the zero time, while no camera was ever added, and is not started
-- again, then whatever is called in between, a camera that is added is captured and has an upload worker
-- that does not run, so that its images are queued and never uploaded.
pub late_camera_is_not_uploaded :
    (t : Instant) (o : Orchestrator) (cs : List Call) (os : Os) (dir : Dir) (now : Instant)
    (cam : NewCamera)
    → 0 < t
    → o.upload_worker ≡ none
    → o.upload_running ≡ false
    → All IsNoStart cs
    → IsCapturedOnly cam.camera_id (add_camera os dir now cam (run cs (start_all t o)))
unfolding start_all add_camera
late_camera_is_not_uploaded t o cs os dir now cam p u h n =
    let started = start_all t o in
    let idle : IsIdle t started = rw (u, start_all) (h, refl) in
    let later = run cs started in
    added-IsCapturedOnly t now cam
      (create_queue os cam.camera_id default_queue_config dir later.queue_manager) later p
      (run-IsIdle t cs started n idle)
