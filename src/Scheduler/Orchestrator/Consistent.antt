-- ===== src/Scheduler/Orchestrator/Consistent.antt =====
-- The queue manager, the capture workers and the upload worker always know the same cameras.
use aviationwx_bridge.Prelude.{
  Bool-cases, Instant, List, Option, [], false, if◌then◌else◌, inl, inr, ltb, none, refl, some, suc,
  true, zero, ℕ, ◌-◌, ◌∷◌, ◌≡◌, ◌≤◌,
}
use aviationwx_bridge.Queue.Names.{Name, name_eq}
use aviationwx_bridge.Queue.Names.Table.{find}
use aviationwx_bridge.Queue.State.{default_queue_config}
use aviationwx_bridge.Queue.Manager.{create_queue, each, get_queue, new_manager}
use aviationwx_bridge.Scheduler.Gate.{CaptureGate}
use aviationwx_bridge.Scheduler.Capture.{CaptureEnv, CaptureWorker, LoopResult, on_tick, on_wake}
use aviationwx_bridge.Scheduler.Orchestrator.{
  Orchestrator, OrchestratorConfig, Worker, add_camera, new_orchestrator, set_bridge_timezone,
  stop_all,
}
use aviationwx_bridge.Scheduler.Orchestrator.Waking.{
  change_worker, clamp_captures, first_eligible, is_eligible, limited, notify_capture_gate_released,
  notify_times, put_back, set_max_concurrent_captures, sorted_ids, tick_worker, wake_event,
  wake_worker, with_shared, worker_event,
}
use aviationwx_bridge.Scheduler.Orchestrator.Operations.{
  Call, HasSameIds-SameKeys, IsConsistent, add_call, apply, authority_call, cameras_of,
  captures_call, change_worker-SameKeys, each-SameKeys, health_call, order_of, remove_call, run,
  start_call, stop_call, tick_call, timezone_call, uploader_call, uploads_call, wake_call,
}
use aviationwx_bridge.Scheduler.Orchestrator.Limits.{
  limited-IsLimited, new_orchestrator-IsLimited, on_tick_limit, on_wake_limit,
}
use aviationwx_bridge.Scheduler.Orchestrator.Adding.{
  create_queue-AddedQueue, remove_camera-IsConsistent, with_queue-IsConsistent,
}
use aviationwx_bridge.Scheduler.Orchestrator.Kept.{
  authority-IsConsistent, changed-IsConsistent, health-IsConsistent, start_all-IsConsistent,
  uploader-IsConsistent, uploads-IsConsistent, workers-IsConsistent,
}

wake_worker-IsConsistent :
    (found : Option Name) (o : Orchestrator) → IsConsistent o → IsConsistent (wake_worker found o)
wake_worker-IsConsistent none o k = k
wake_worker-IsConsistent (some id) o k = changed-IsConsistent id (λ w. record w { wake = true }) o k

notify-IsConsistent :
    (now : Instant) (o : Orchestrator)
    → IsConsistent o
    → IsConsistent (notify_capture_gate_released now o)
unfolding notify_capture_gate_released
notify-IsConsistent now o k =
    wake_worker-IsConsistent (first_eligible (is_eligible now o) (sorted_ids o.capture_workers)) o k

notify_times-IsConsistent :
    (n : ℕ) (now : Instant) (o : Orchestrator)
    → IsConsistent o
    → IsConsistent (notify_times n now o)
unfolding notify_times
notify_times-IsConsistent zero now o k = k
notify_times-IsConsistent (suc n) now o k =
    notify_times-IsConsistent n now (notify_capture_gate_released now o)
      (notify-IsConsistent now o k)

captures-IsConsistent :
    (now : Instant) (n : ℕ) (o : Orchestrator)
    → IsConsistent o
    → IsConsistent (set_max_concurrent_captures now n o)
unfolding set_max_concurrent_captures
captures-IsConsistent now n o k =
    notify_times-IsConsistent (clamp_captures n - o.capture_gate.limit) now
      (limited (clamp_captures n) o) (k.0, limited-IsLimited n o)

put_back-IsConsistent :
    (id : Name) (r : LoopResult) (o : Orchestrator)
    → r.gate.limit ≡ o.capture_gate.limit
    → IsConsistent o
    → IsConsistent (put_back id r o)
put_back-IsConsistent id r o h k = (
  HasSameIds-SameKeys o.capture_workers
      (change_worker id (λ w. record w { capture = r.worker }) o.capture_workers)
      o.queue_manager.queues
      (each (λ i q. if name_eq i id then r.worker.queue else q) o.queue_manager.queues)
      (cameras_of o.upload_worker) (cameras_of o.upload_worker) (order_of o.upload_worker)
      (change_worker-SameKeys id (λ w. record w { capture = r.worker }) o.capture_workers)
      (each-SameKeys (λ i q. if name_eq i id then r.worker.queue else q) o.queue_manager.queues)
      (λ i. refl) k.0,
  rw h k.1,
)

worker_event-IsConsistent :
    (now : Instant) (loop : CaptureGate → CaptureWorker → LoopResult) (id : Name)
    (found : Option Worker) (o : Orchestrator)
    → ((g : CaptureGate) (w : CaptureWorker) → (loop g w).gate.limit ≡ g.limit)
    → IsConsistent o
    → IsConsistent (worker_event now loop id found o)
worker_event-IsConsistent now loop id none o h k = k
worker_event-IsConsistent now loop id (some w) o h k =
    let shared = with_shared (get_queue id o.queue_manager) w.capture in
    let r = loop o.capture_gate shared in
    let put = put_back-IsConsistent id r o (h o.capture_gate shared) k in
    elim (Bool-cases (ltb shared.captures_total r.worker.captures_total)) [
      | inl e ↦ rw e (notify-IsConsistent now (put_back id r o) put)
      | inr e ↦ rw e put
    ]

wake_event-IsConsistent :
    (env : CaptureEnv) (now : Instant) (id : Name) (o : Orchestrator)
    → IsConsistent o
    → IsConsistent (wake_event env now id o)
unfolding wake_event
wake_event-IsConsistent env now id o k =
    let emptied = record o {
      capture_workers = change_worker id (λ w. record w { wake = false }) o.capture_workers;
    } in
    worker_event-IsConsistent env.now (on_wake env now) id (find id emptied.capture_workers) emptied
      (on_wake_limit env now) (changed-IsConsistent id (λ w. record w { wake = false }) o k)

apply-IsConsistent : (c : Call) (o : Orchestrator) → IsConsistent o → IsConsistent (apply c o)
unfolding apply add_camera set_bridge_timezone stop_all tick_worker
apply-IsConsistent (add_call os dir now cam) o k =
    with_queue-IsConsistent now cam
      (create_queue os cam.camera_id default_queue_config dir o.queue_manager) o
      (create_queue-AddedQueue os cam.camera_id default_queue_config dir o.queue_manager) k
apply-IsConsistent (remove_call id) o k = remove_camera-IsConsistent id o k
apply-IsConsistent (captures_call now n) o k = captures-IsConsistent now n o k
apply-IsConsistent (uploads_call n) o k = uploads-IsConsistent n o k
apply-IsConsistent (uploader_call id u) o k = uploader-IsConsistent id u o k
apply-IsConsistent (timezone_call tz) o k = k
apply-IsConsistent (authority_call a) o k = authority-IsConsistent a o k
apply-IsConsistent (health_call f zone) o k = health-IsConsistent f zone o k
apply-IsConsistent (start_call now) o k = start_all-IsConsistent now o k
apply-IsConsistent stop_call o k = workers-IsConsistent (λ w. record w { running = false }) o k
apply-IsConsistent (tick_call env now id) o k =
    worker_event-IsConsistent env.now (on_tick env now) id (find id o.capture_workers) o
      (on_tick_limit env now) k
apply-IsConsistent (wake_call env now id) o k = wake_event-IsConsistent env now id o k

run-kept : (cs : List Call) (o : Orchestrator) → IsConsistent o → IsConsistent (run cs o)
unfolding run
run-kept [] o k = k
run-kept (c ∷ cs) o k = run-kept cs (apply c o) (apply-IsConsistent c o k)

-- After any calls and any ticks and wakes of the workers, in any order, a camera has a queue exactly if
-- it has a capture worker and exactly if the upload worker knows it, and then it stands exactly once in
-- the order of the uploads; the gate has the configured limit, which is from 1 to 10. The limit that the
-- hardware suggests is at least 1.
pub run-IsConsistent :
    (cs : List Call) (profiled authority : ℕ) (c : OrchestratorConfig)
    → 1 ≤ profiled
    → IsConsistent (run cs (new_orchestrator profiled authority c))
unfolding new_orchestrator new_manager
run-IsConsistent cs profiled authority c h =
    run-kept cs (new_orchestrator profiled authority c)
      ((λ id. (refl, refl, refl)), new_orchestrator-IsLimited profiled authority c h)
