-- ===== src/Scheduler/Upload/Schedule.antt =====
-- internal/scheduler/upload.go: which images are given to the pool, and the life of a task in it.
-- `running` lists what the goroutines of the pool have in hand; it is not in the source, and no
-- operation reads it.
use aviationwx_bridge.Queue.Names.Table.{find}
use aviationwx_bridge.Prelude.{
  Bool, Instant, List, Option, [], before, false, if◌then◌else◌, length, ltb, none, some, suc, true,
  zero, ℕ, ◌++◌, ◌+◌, ◌-◌, ◌<◌, ◌==◌, ◌||◌, ◌∷◌, ◌≡◌,
}
use aviationwx_bridge.Queue.Names.{Name}
use aviationwx_bridge.Queue.Disk.{Os}
use aviationwx_bridge.Queue.State.{Queue}
use aviationwx_bridge.Queue.Removal.{QueuedImage, mark_uploaded}
use aviationwx_bridge.Queue.Reading.{ReadResult, dequeue_next, err, ok}
use aviationwx_bridge.Scheduler.Upload.Failures.{
  clear_file_read_failure, prune_stale_file_read_failures,
}
use aviationwx_bridge.Scheduler.Upload.{
  Camera, FilePath, UploadTask, UploadWorker, UploadWorkerConfig, add_queue, add_workers,
  new_upload_worker, path_eq, path_of, read_limit, remove_queue, set_uploader, start_pool,
  update_camera,
}
use aviationwx_bridge.Scheduler.Upload.Probe.{probe_connections}
use aviationwx_bridge.Scheduler.Upload.Transfer.{
  ReadFile, Transfer, build_remote_path, upload_with_retry,
}

abbrev pub member_path : FilePath → List FilePath → Bool
member_path p [] = false
member_path p (x ∷ xs) = path_eq x p || member_path p xs

abbrev pub delete_path : FilePath → List FilePath → List FilePath
delete_path p [] = []
delete_path p (x ∷ xs) = let rest = delete_path p xs in if path_eq x p then rest else x ∷ rest

-- the image is marked and sent; a full channel takes the mark back
unfoldable pub offer : UploadTask → UploadWorker → UploadWorker × Bool
offer task w =
    if member_path (path_of task) w.in_flight
    then (w, false)
    else if ltb (length w.work_chan) w.chan_capacity
    then (
      record w { in_flight = path_of task ∷ w.in_flight; work_chan = w.work_chan ++ (task ∷ []) },
      true,
    )
    else (record w { in_flight = delete_path (path_of task) (path_of task ∷ w.in_flight) }, false)

abbrev pub task_of : Name → Camera → ℕ → QueuedImage → UploadTask
task_of id c uploader img = record {
  camera_id = id;
  image = img;
  queue_serial = c.queue_serial;
  uploader = uploader;
  remote = build_remote_path c.remote_path id img.timestamp;
}

abbrev pub offer_next :
    Name → Camera → ℕ → ReadResult QueuedImage → UploadWorker → UploadWorker × Bool
offer_next id c uploader (ok img) w = offer (task_of id c uploader img) w
offer_next id c uploader (err e) w = (w, false)

abbrev pub with_uploader : Os → Name → Camera → Option ℕ → UploadWorker → UploadWorker × Bool
with_uploader os id c none w = (w, false)
with_uploader os id c (some u) w =
    offer_next id c u (dequeue_next os (ltb w.catchup_threshold c.queue.image_count) c.queue) w

-- one camera of the loop; the test tells whether a task was scheduled
unfoldable pub schedule_camera : Os → Instant → Name → UploadWorker → UploadWorker × Bool
schedule_camera os now id w = elim (find id w.cameras) [
  | none ↦ (w, false)
  | some c ↦
      if before now c.failures.backoff_until then (w, false) else with_uploader os id c c.uploader w
]

-- the loop over the cameras, which ends when `slots` tasks are scheduled
unfoldable pub schedule_loop : (Name → Os) → Instant → ℕ → List Name → UploadWorker → UploadWorker
schedule_loop disks now zero ids w = w
schedule_loop disks now (suc slots) [] w = w
schedule_loop disks now (suc slots) (id ∷ ids) w =
    let r = schedule_camera (disks id) now id w in
    if r.1
    then schedule_loop disks now slots ids r.0
    else schedule_loop disks now (suc slots) ids r.0

unfoldable pub schedule_uploads :
    (Name → Os) → (FilePath → Bool) → Instant → UploadWorker → UploadWorker
schedule_uploads disks present now w0 =
    let w = prune_stale_file_read_failures present w0 in
    schedule_loop disks now (w.max_concurrent - w.active_uploads) w.queue_order w

-- The worker, what its goroutines have in hand and how many there are. While a change of the limit runs,
-- `growing` has the number that it adds and how many of these are not started yet.
pub record Pool : Type 0 where
  pub worker : UploadWorker
  pub running : List UploadTask
  pub goroutines : ℕ
  pub growing : Option (ℕ × ℕ)

-- the end of a task: after a success the file leaves the queue of the task and the failures are forgotten;
-- a queue that is no longer that of the camera is not part of the state
abbrev pub conclude : Os → UploadTask → UploadWorker × Bool → UploadWorker
conclude os task (w, false) = w
conclude os task (w, true) =
    update_camera task.camera_id
      (λ c. record c {
        queue =
            if c.queue_serial == task.queue_serial
            then (mark_uploaded os task.image c.queue).0
            else c.queue;
        failures = record c.failures { consecutive_failures = 0 };
      })
      (clear_file_read_failure (path_of task) w)

unfoldable pub finish_task :
    Os → Instant → ReadFile → Transfer → UploadTask → UploadWorker → UploadWorker
finish_task os now f t task w =
    let r = conclude os task (upload_with_retry os now f t task w) in
    record r {
      in_flight = delete_path (path_of task) r.in_flight;
      active_uploads = r.active_uploads - 1;
    }

pub data Step : Pool → Pool → Type 0 where
  schedules :
      (disks : Name → Os) (present : FilePath → Bool) (now : Instant) (p : Pool)
      → Step p (record p { worker = schedule_uploads disks present now p.worker })
  takes :
      (p : Pool) (task : UploadTask) (rest : List UploadTask)
      → p.worker.work_chan ≡ task ∷ rest
      → length p.running < p.goroutines
      → Step p (record p {
        worker = record p.worker { work_chan = rest; active_uploads = p.worker.active_uploads + 1 };
        running = task ∷ p.running;
      })
  finishes :
      (os : Os) (now : Instant) (f : ReadFile) (t : Transfer) (p : Pool) (earlier : List UploadTask)
      (task : UploadTask) (later : List UploadTask)
      → p.running ≡ earlier ++ (task ∷ later)
      → Step p
          (record p { worker = finish_task os now f t task p.worker; running = earlier ++ later })
  probes :
      (now : Instant) (tested : Instant) (answer : Option Name) (p : Pool)
      → Step p (record p { worker = probe_connections now tested answer p.worker })
  -- a change of the limit begins, where no other one runs
  limits :
      (n : ℕ) (p : Pool)
      → p.growing ≡ none
      → Step p (record p {
        worker = (read_limit n p.worker).0;
        growing = some ((read_limit n p.worker).1, (read_limit n p.worker).1);
      })
  spawns :
      (additional left : ℕ) (p : Pool)
      → p.growing ≡ some (additional, suc left)
      → Step p (record p { goroutines = p.goroutines + 1; growing = some (additional, left) })
  -- it ends
  counts :
      (additional : ℕ) (p : Pool)
      → p.growing ≡ some (additional, 0)
      → Step p (record p { worker = add_workers additional p.worker; growing = none })
  adds :
      (id : Name) (q : Queue) (remote : Name) (uploader : Option ℕ) (p : Pool)
      → Step p (record p { worker = add_queue id q remote uploader p.worker })
  removes : (id : Name) (p : Pool) → Step p (record p { worker = remove_queue id p.worker })
  reconfigures :
      (id : Name) (uploader : ℕ) (p : Pool)
      → Step p (record p { worker = set_uploader id uploader p.worker })
  changes_queue :
      (id : Name) (q : Queue) (p : Pool)
      → Step p (record p { worker = update_camera id (λ c. record c { queue = q }) p.worker })

pub data Reach (s : Pool) : Pool → Type 0 where
  here : Reach s s
  next : {p q : Pool} → Reach s p → Step p q → Reach s q

-- after the start of `run`
unfoldable pub started : UploadWorkerConfig → Instant → Pool
started c now =
    let w = start_pool (new_upload_worker c now) in
    record { worker = w; running = []; goroutines = w.worker_count; growing = none }
