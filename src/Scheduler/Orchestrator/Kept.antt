-- ===== src/Scheduler/Orchestrator/Kept.antt =====
-- The calls that only change settings keep the cameras that the parts know.
use aviationwx_bridge.Prelude.{
  Instant, Option, Option-cases, [], arith, if◌then◌else◌, inl, inr, none, refl, some, true, ℕ, ◌≡◌,
}
use aviationwx_bridge.Queue.Names.{Name, name_eq}
use aviationwx_bridge.Scheduler.Upload.{
  UploadWorker, clamp, set_max_concurrent, set_uploader, start_pool,
}
use aviationwx_bridge.Scheduler.Orchestrator.{
  Orchestrator, Worker, each_worker, map_option, set_camera_uploader, set_max_concurrent_uploads,
  set_time_authority, set_time_health, start_all,
}
use aviationwx_bridge.Scheduler.Orchestrator.Waking.{change_worker}
use aviationwx_bridge.Scheduler.Orchestrator.Operations.{
  HasSameIds-SameKeys, IsConsistent, SameKeys, cameras_of, change_camera-SameKeys,
  change_worker-SameKeys, each_worker-SameKeys, order_of,
}

-- a change of the upload worker that keeps its cameras
kept_upload :
    (f : UploadWorker → UploadWorker) (u : Option UploadWorker)
    → ((w : UploadWorker) → (f w).cameras ≡ w.cameras)
    → ((w : UploadWorker) → (f w).queue_order ≡ w.queue_order)
    → (cameras_of (map_option f u) ≡ cameras_of u) × (order_of (map_option f u) ≡ order_of u)
kept_upload f none h k = (refl, refl)
kept_upload f (some w) h k = (h w, k w)

set_max_concurrent-cameras :
    (n : ℕ) (w : UploadWorker)
    → ((set_max_concurrent n w).cameras ≡ w.cameras)
      × ((set_max_concurrent n w).queue_order ≡ w.queue_order)
unfolding set_max_concurrent
set_max_concurrent-cameras n w = ground arith

pub uploads-IsConsistent :
    (n : ℕ) (o : Orchestrator) → IsConsistent o → IsConsistent (set_max_concurrent_uploads n o)
unfolding set_max_concurrent_uploads
uploads-IsConsistent n o k =
    let u =
      kept_upload (set_max_concurrent (clamp n)) o.upload_worker
        (λ w. (set_max_concurrent-cameras (clamp n) w).0)
        (λ w. (set_max_concurrent-cameras (clamp n) w).1) in
    rw (u.0, u.1) k

uploader_changed :
    (id : Name) (n : ℕ) (u : Option UploadWorker)
    → SameKeys (cameras_of (map_option (set_uploader id n) u)) (cameras_of u)
      × (order_of (map_option (set_uploader id n) u) ≡ order_of u)
unfolding set_uploader
uploader_changed id n none = ((λ i. refl), refl)
uploader_changed id n (some w) =
    (change_camera-SameKeys id (λ c. record c { uploader = some n }) w.cameras, refl)

pub uploader-IsConsistent :
    (id : Name) (n : ℕ) (o : Orchestrator)
    → IsConsistent o
    → IsConsistent (set_camera_uploader id n o)
unfolding set_camera_uploader
uploader-IsConsistent id n o k =
    let u = uploader_changed id n o.upload_worker in
    rw u.1 (
      HasSameIds-SameKeys o.capture_workers o.capture_workers o.queue_manager.queues
          o.queue_manager.queues (cameras_of o.upload_worker)
          (cameras_of (map_option (set_uploader id n) o.upload_worker)) (order_of o.upload_worker)
          (λ i. refl) (λ i. refl) u.0 k.0,
      k.1,
    )

-- a change of one worker
pub changed-IsConsistent :
    (id : Name) (f : Worker → Worker) (o : Orchestrator)
    → IsConsistent o
    → IsConsistent (record o { capture_workers = change_worker id f o.capture_workers })
changed-IsConsistent id f o k = (
  HasSameIds-SameKeys o.capture_workers (change_worker id f o.capture_workers)
      o.queue_manager.queues o.queue_manager.queues (cameras_of o.upload_worker)
      (cameras_of o.upload_worker) (order_of o.upload_worker)
      (change_worker-SameKeys id f o.capture_workers) (λ i. refl) (λ i. refl) k.0,
  k.1,
)

-- a change of every worker
pub workers-IsConsistent :
    (f : Worker → Worker) (o : Orchestrator)
    → IsConsistent o
    → IsConsistent (record o { capture_workers = each_worker f o.capture_workers })
workers-IsConsistent f o k = (
  HasSameIds-SameKeys o.capture_workers (each_worker f o.capture_workers) o.queue_manager.queues
      o.queue_manager.queues (cameras_of o.upload_worker) (cameras_of o.upload_worker)
      (order_of o.upload_worker) (each_worker-SameKeys f o.capture_workers) (λ i. refl) (λ i. refl)
      k.0,
  k.1,
)

pub authority-IsConsistent :
    (a : ℕ) (o : Orchestrator) → IsConsistent o → IsConsistent (set_time_authority a o)
unfolding set_time_authority
authority-IsConsistent a o k = workers-IsConsistent (λ w. record w { authority = a }) o k

pub health-IsConsistent :
    (new_authority : Name → Option ℕ) (zone : Name) (o : Orchestrator)
    → IsConsistent o
    → IsConsistent (set_time_health new_authority zone o)
unfolding set_time_health
health-IsConsistent new_authority zone o k =
    let tz = if name_eq o.config.timezone [] then zone else o.config.timezone in
    elim (Option-cases (new_authority tz)) [
      | inl e ↦ rw (e, set_time_health) k
      | inr (a, e) ↦ rw (e, set_time_health) (authority-IsConsistent a o k)
    ]

pub start_all-IsConsistent :
    (now : Instant) (o : Orchestrator) → IsConsistent o → IsConsistent (start_all now o)
unfolding start_all start_pool
start_all-IsConsistent now o k =
    let u = kept_upload start_pool o.upload_worker (λ w. refl) (λ w. refl) in
    rw (u.0, u.1) (workers-IsConsistent (λ w. record w { running = true }) o k)
