-- ===== src/Scheduler/Orchestrator/Adding.antt =====
-- Adding and removing a camera keeps the queue manager, the capture workers and the upload worker in
-- agreement.
use aviationwx_bridge.Prelude.{Instant, Option, Option-cases, inl, inr, none, refl, some, ◌∷◌, ◌≡◌}
use aviationwx_bridge.Queue.Names.{Name}
use aviationwx_bridge.Queue.Names.Table.{delete, find}
use aviationwx_bridge.Queue.Disk.{Dir, Os}
use aviationwx_bridge.Queue.State.{QueueConfig}
use aviationwx_bridge.Queue.Intake.{new_queue, scan_directory}
use aviationwx_bridge.Queue.Manager.{
  CreateResult, QueueManager, already_exists, create_queue, created, scan_failed,
  remove_queue as remove_managed,
}
use aviationwx_bridge.Scheduler.Upload.{
  UploadWorker, add_queue, new_upload_worker, remove_first, remove_queue as remove_upload,
}
use aviationwx_bridge.Scheduler.Orchestrator.{
  NewCamera, Orchestrator, OrchestratorConfig, map_option, remove_camera, upload_worker_or_new,
  with_queue,
}
use aviationwx_bridge.Scheduler.Orchestrator.Operations.{
  HasSameIds-SameKeys, IsConsistent, cameras_of, order_of,
}
use aviationwx_bridge.Scheduler.Orchestrator.Ids.{
  added-HasSameIds, missing-SameKeys, removed-HasSameIds,
}

-- what `CreateQueue` gives
abbrev pub AddedQueue : Name → QueueManager → QueueManager × CreateResult → Type 0
AddedQueue id m (m', created q) = (find id m.queues ≡ none) × (m'.queues ≡ (id, q) ∷ m.queues)
AddedQueue id m (m', already_exists) = m'.queues ≡ m.queues
AddedQueue id m (m', scan_failed) = m'.queues ≡ m.queues

pub create_queue-AddedQueue :
    (os : Os) (id : Name) (config : QueueConfig) (dir : Dir) (m : QueueManager)
    → AddedQueue id m (create_queue os id config dir m)
unfolding create_queue
create_queue-AddedQueue os id config dir m = elim (Option-cases (find id m.queues)) [
  | inr (q, e) ↦ rw (e, create_queue) refl
  | inl e ↦ elim (Option-cases (scan_directory os (new_queue config dir))) [
    | inl s ↦ rw (e, s, create_queue) refl
    | inr (q, s) ↦ rw (e, s, create_queue) (e, refl)
  ]
]

-- the upload worker that is there or made knows the cameras that were there
made :
    (c : OrchestratorConfig) (now : Instant) (u : Option UploadWorker)
    → ((upload_worker_or_new c now u).cameras ≡ cameras_of u)
      × ((upload_worker_or_new c now u).queue_order ≡ order_of u)
unfolding new_upload_worker
made c now none = (refl, refl)
made c now (some w) = (refl, refl)

pub with_queue-IsConsistent :
    (now : Instant) (cam : NewCamera) (r : QueueManager × CreateResult) (o : Orchestrator)
    → AddedQueue cam.camera_id o.queue_manager r
    → IsConsistent o
    → IsConsistent (with_queue now cam r o).0
unfolding add_queue
with_queue-IsConsistent now cam (m, created q) o h k =
    let u = made o.config now o.upload_worker in
    rw (h.1, u.0, u.1)
      (
        added-HasSameIds cam.camera_id _ q _ o.capture_workers o.queue_manager.queues
            (cameras_of o.upload_worker) (order_of o.upload_worker) h.0 k.0,
        k.1,
      )
with_queue-IsConsistent now cam (m, already_exists) o h k = rw h k
with_queue-IsConsistent now cam (m, scan_failed) o h k = rw h k

uploads_removed :
    (id : Name) (u : Option UploadWorker)
    → (cameras_of (map_option (remove_upload id) u) ≡ delete id (cameras_of u))
      × (order_of (map_option (remove_upload id) u) ≡ remove_first id (order_of u))
unfolding remove_upload
uploads_removed id none = (refl, refl)
uploads_removed id (some w) = (refl, refl)

pub remove_camera-IsConsistent :
    (id : Name) (o : Orchestrator) → IsConsistent o → IsConsistent (remove_camera id o).0
unfolding remove_camera remove_managed
remove_camera-IsConsistent id o k =
    let gone =
      removed-HasSameIds id o.capture_workers o.queue_manager.queues (cameras_of o.upload_worker)
        (order_of o.upload_worker) k.0 in
    let u = uploads_removed id o.upload_worker in
    elim (Option-cases (find id o.queue_manager.queues)) [
      | inr (q, e) ↦ rw (e, remove_managed, u.0, u.1) (gone, k.1)
      | inl e ↦
          rw (e, remove_managed, u.0, u.1)
            (
              HasSameIds-SameKeys (delete id o.capture_workers) (delete id o.capture_workers)
                  (delete id o.queue_manager.queues) o.queue_manager.queues
                  (delete id (cameras_of o.upload_worker)) (delete id (cameras_of o.upload_worker))
                  (remove_first id (order_of o.upload_worker)) (λ i. refl)
                  (missing-SameKeys id o.queue_manager.queues e) (λ i. refl) gone,
              k.1,
            )
    ]
