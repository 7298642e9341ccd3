-- ===== src/Scheduler/Upload/Scheduling.antt =====
-- What a scheduling keeps: the marks agree with the tasks, and the pool stays as it is.
use aviationwx_bridge.Queue.Names.Table.{find}
use aviationwx_bridge.Prelude.{
  Bool, Bool-cases, Instant, List, Option, Option-cases, [], before, inl, inr, length, ltb, none,
  refl, some, suc, zero, ℕ, ◌-◌, ◌∙◌, ◌∷◌, ◌≡◌,
}
use aviationwx_bridge.Queue.Names.{Name}
use aviationwx_bridge.Queue.Disk.{Os}
use aviationwx_bridge.Queue.Removal.{QueuedImage}
use aviationwx_bridge.Queue.Reading.{ReadResult, dequeue_next, err, ok}
use aviationwx_bridge.Scheduler.Upload.Failures.{prune_stale_file_read_failures}
use aviationwx_bridge.Scheduler.Upload.{Camera, FilePath, UploadTask, UploadWorker, path_of}
use aviationwx_bridge.Scheduler.Upload.Schedule.{
  member_path, offer, offer_next, schedule_camera, schedule_loop, schedule_uploads, task_of,
  with_uploader,
}
use aviationwx_bridge.Scheduler.Upload.InFlight.{IsMarked, IsMarked-same, offer-IsMarked}

-- what scheduling keeps
abbrev pub Kept : List UploadTask → UploadWorker → UploadWorker → Type 0
Kept running w r =
    (IsMarked w running → IsMarked r running)
    × (r.active_uploads ≡ w.active_uploads)
    × (r.worker_count ≡ w.worker_count)

Kept-refl : (running : List UploadTask) (w : UploadWorker) → Kept running w w
Kept-refl running w = (λ m. m, refl, refl)

Kept-trans :
    (running : List UploadTask) (a b c : UploadWorker)
    → Kept running a b
    → Kept running b c
    → Kept running a c
Kept-trans running a b c f g = (λ m. g.0 (f.0 m), g.1 ∙ f.1, g.2 ∙ f.2)

offer_same :
    (task : UploadTask) (w : UploadWorker)
    → ((offer task w).0.active_uploads ≡ w.active_uploads)
      × ((offer task w).0.worker_count ≡ w.worker_count)
unfolding offer
offer_same task w = elim (Bool-cases (member_path (path_of task) w.in_flight)) [
  | inl e ↦ rw e (refl, refl)
  | inr e ↦ elim (Bool-cases (ltb (length w.work_chan) w.chan_capacity)) [
    | inl k ↦ rw (e, k) (refl, refl)
    | inr k ↦ rw (e, k) (refl, refl)
  ]
]

offer-Kept :
    (running : List UploadTask) (task : UploadTask) (w : UploadWorker)
    → Kept running w (offer task w).0
offer-Kept running task w =
    (λ m. offer-IsMarked task w running m, (offer_same task w).0, (offer_same task w).1)

offer_next-Kept :
    (running : List UploadTask) (id : Name) (c : Camera) (u : ℕ) (r : ReadResult QueuedImage)
    (w : UploadWorker)
    → Kept running w (offer_next id c u r w).0
offer_next-Kept running id c u (ok img) w = offer-Kept running (task_of id c u img) w
offer_next-Kept running id c u (err e) w = Kept-refl running w

with_uploader-Kept :
    (running : List UploadTask) (os : Os) (id : Name) (c : Camera) (u : Option ℕ) (w : UploadWorker)
    → Kept running w (with_uploader os id c u w).0
with_uploader-Kept running os id c none w = Kept-refl running w
with_uploader-Kept running os id c (some u) w =
    offer_next-Kept running id c u
      (dequeue_next os (ltb w.catchup_threshold c.queue.image_count) c.queue) w

schedule_camera-Kept :
    (running : List UploadTask) (os : Os) (now : Instant) (id : Name) (w : UploadWorker)
    → Kept running w (schedule_camera os now id w).0
unfolding schedule_camera
schedule_camera-Kept running os now id w = elim (Option-cases (find id w.cameras)) [
  | inl e ↦ rw (e, schedule_camera) (Kept-refl running w)
  | inr (c, e) ↦
      rw (e, schedule_camera)
        (elim (Bool-cases (before now c.failures.backoff_until)) [
          | inl b ↦ rw b (Kept-refl running w)
          | inr b ↦ rw b (with_uploader-Kept running os id c c.uploader w)
        ])
]

schedule_loop-Kept :
    (running : List UploadTask) (disks : Name → Os) (now : Instant) (slots : ℕ) (ids : List Name)
    (w : UploadWorker)
    → Kept running w (schedule_loop disks now slots ids w)
unfolding schedule_loop
schedule_loop-Kept running disks now zero ids w = Kept-refl running w
schedule_loop-Kept running disks now (suc slots) [] w = Kept-refl running w
schedule_loop-Kept running disks now (suc slots) (id ∷ ids) w =
    let r = schedule_camera (disks id) now id w in
    let first = schedule_camera-Kept running (disks id) now id w in
    elim (Bool-cases r.1) [
      | inl e ↦ rw e (
          Kept-trans running w r.0 (schedule_loop disks now slots ids r.0) first
            (schedule_loop-Kept running disks now slots ids r.0))
      | inr e ↦ rw e (
          Kept-trans running w r.0 (schedule_loop disks now (suc slots) ids r.0) first
            (schedule_loop-Kept running disks now (suc slots) ids r.0))
    ]

pub schedule_uploads-Kept :
    (running : List UploadTask) (disks : Name → Os) (present : FilePath → Bool) (now : Instant)
    (w : UploadWorker)
    → Kept running w (schedule_uploads disks present now w)
unfolding schedule_uploads prune_stale_file_read_failures
schedule_uploads-Kept running disks present now w =
    let pruned = prune_stale_file_read_failures present w in
    Kept-trans running w pruned
      (schedule_loop disks now (w.max_concurrent - w.active_uploads) w.queue_order pruned)
      (λ m. IsMarked-same w pruned running refl refl m, refl, refl)
      (schedule_loop-Kept running disks now (w.max_concurrent - w.active_uploads) w.queue_order
        pruned)
