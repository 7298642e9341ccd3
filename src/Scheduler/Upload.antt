-- ===== src/Scheduler/Upload.antt =====
-- internal/scheduler/upload.go: the worker that uploads queued images. Its four maps from a camera's id
-- (queue, configuration, uploader, failures) always have the same keys and are one map here. A file
-- path is the camera whose directory it is in and the file's name. The mutexes make each function that
-- takes one a step; a clock that Go reads twice in one function is read once.
pub mod Failures
pub mod Transfer
pub mod Probe
pub mod Schedule
pub mod Frame
pub mod InFlight
pub mod Scheduling
pub mod Safety
pub mod Accounting
pub mod Counters
mod Examples
use aviationwx_bridge.Queue.Names.Table.{Table, delete}
use aviationwx_bridge.Prelude.{
  Bool, Duration, Instant, List, Option, [], false, if◌then◌else◌, leb, ltb, minute, second, some,
  zero_time, ℕ, ◌&&◌, ◌*◌, ◌++◌, ◌+◌, ◌-◌, ◌/◌, ◌==◌, ◌||◌, ◌∷◌,
}
use aviationwx_bridge.Queue.Names.{Name, name_eq}
use aviationwx_bridge.Queue.State.{Queue}
use aviationwx_bridge.Queue.Removal.{QueuedImage}

pub record FailureState : Type 0 where
  pub consecutive_failures : ℕ
  pub last_failure : Instant
  pub last_auth_failure : Instant
  pub backoff_until : Instant

abbrev pub no_failures : FailureState
no_failures = record {
  consecutive_failures = 0;
  last_failure = zero_time;
  last_auth_failure = zero_time;
  backoff_until = zero_time;
}

-- `uploader` tells the client by a number; `none` is a nil client. `queue_serial` tells which queue it
-- is, since a task keeps the pointer to its queue.
pub record Camera : Type 0 where
  pub queue : Queue
  pub queue_serial : ℕ
  pub remote_path : Name
  pub uploader : Option ℕ
  pub failures : FailureState

pub record FilePath : Type 0 where
  pub camera : Name
  pub file : Name

abbrev pub path_eq : FilePath → FilePath → Bool
path_eq a b = name_eq a.camera b.camera && name_eq a.file b.file

pub record UploadTask : Type 0 where
  pub camera_id : Name
  pub image : QueuedImage
  pub queue_serial : ℕ
  pub uploader : ℕ
  pub remote : Name

abbrev pub path_of : UploadTask → FilePath
path_of task = record { camera = task.camera_id; file = task.image.filename }

abbrev pub Cameras : Type 0
Cameras = Table Camera

-- `queues_added` counts the queues so far, which gives the next one its number
pub record UploadWorker : Type 0 where
  pub cameras : Cameras
  pub queues_added : ℕ
  pub queue_order : List Name
  pub max_concurrent : ℕ
  pub worker_count : ℕ
  pub work_chan : List UploadTask
  pub chan_capacity : ℕ
  pub catchup_threshold : ℕ
  pub active_uploads : ℕ
  pub in_flight : List FilePath
  pub auth_backoff : Duration
  pub uploads_total : ℕ
  pub uploads_success : ℕ
  pub uploads_failed : ℕ
  pub uploads_retried : ℕ
  pub uploads_today : ℕ
  pub today_date : Instant
  pub auth_failures : ℕ
  pub last_success_time : Instant
  pub last_failure_time : Instant
  pub last_failure_reason : Name
  pub file_read_failures : List (FilePath × ℕ)
  pub probe_camera_index : ℕ
  pub last_probe_time : Instant
  pub last_probe_ok : Bool
  pub last_probe_error : Name

pub record UploadWorkerConfig : Type 0 where
  pub config_max_concurrent : ℕ
  pub config_catchup_threshold : ℕ
  pub config_auth_backoff : Duration

abbrev day : Duration
day = 24 * 60 * minute

-- `Truncate(24 * time.Hour)`, which counts from the zero time
abbrev pub truncate_day : Instant → Instant
truncate_day t = t / day * day

abbrev or_default : ℕ → ℕ → ℕ
or_default n d = if n == 0 then d else n

-- `NewUploadWorker`, before `run`: no goroutine and no channel yet
unfoldable pub new_upload_worker : UploadWorkerConfig → Instant → UploadWorker
new_upload_worker c now = record {
  cameras = [];
  queues_added = 0;
  queue_order = [];
  max_concurrent = or_default c.config_max_concurrent 2;
  worker_count = 0;
  work_chan = [];
  chan_capacity = 0;
  catchup_threshold = or_default c.config_catchup_threshold 20;
  active_uploads = 0;
  in_flight = [];
  auth_backoff = or_default c.config_auth_backoff (60 * second);
  uploads_total = 0;
  uploads_success = 0;
  uploads_failed = 0;
  uploads_retried = 0;
  uploads_today = 0;
  today_date = truncate_day now;
  auth_failures = 0;
  last_success_time = zero_time;
  last_failure_time = zero_time;
  last_failure_reason = [];
  file_read_failures = [];
  probe_camera_index = 0;
  last_probe_time = zero_time;
  last_probe_ok = false;
  last_probe_error = [];
}

abbrev pub max_file_read_failures : ℕ
max_file_read_failures = 3

abbrev pub max_concurrent_uploads_cap : ℕ
max_concurrent_uploads_cap = 10

abbrev pub clamp : ℕ → ℕ
clamp n =
    if ltb n 1
    then 1
    else if ltb max_concurrent_uploads_cap n
    then max_concurrent_uploads_cap
    else n

-- the start of `run`: the channel and the first goroutines
unfoldable pub start_pool : UploadWorker → UploadWorker
start_pool w =
    let n = clamp w.max_concurrent in
    record w {
      work_chan = [];
      chan_capacity = if ltb (n * 2) 8 then 8 else n * 2;
      worker_count = n;
    }

-- the first part of `SetMaxConcurrent`: the limit, and how many goroutines are to be added by the count
-- that it reads; a channel of no capacity stands for the nil channel before `run`
abbrev pub read_limit : ℕ → UploadWorker → UploadWorker × ℕ
read_limit n w = (
  record w { max_concurrent = clamp n },
  if w.chan_capacity == 0 || leb (clamp n) w.worker_count then 0 else clamp n - w.worker_count,
)

-- the last part, after the goroutines were started without the lock
abbrev pub add_workers : ℕ → UploadWorker → UploadWorker
add_workers additional w = record w { worker_count = w.worker_count + additional }

-- `SetMaxConcurrent`, where nothing happens in between
unfoldable pub set_max_concurrent : ℕ → UploadWorker → UploadWorker
set_max_concurrent n w = let r = read_limit n w in add_workers r.1 r.0

-- a write through a key that is there
abbrev pub change_camera : Name → (Camera → Camera) → Cameras → Cameras
change_camera id f [] = []
change_camera id f (p ∷ ps) =
    let rest = change_camera id f ps in if name_eq p.0 id then (p.0, f p.1) ∷ rest else p ∷ rest

abbrev pub update_camera : Name → (Camera → Camera) → UploadWorker → UploadWorker
update_camera id f w = record w { cameras = change_camera id f w.cameras }

unfoldable pub set_uploader : Name → ℕ → UploadWorker → UploadWorker
set_uploader id uploader w = update_camera id (λ c. record c { uploader = some uploader }) w

unfoldable pub add_queue : Name → Queue → Name → Option ℕ → UploadWorker → UploadWorker
add_queue id q remote uploader w = record w {
  cameras =
      (
        id,
        record {
          queue = q;
          queue_serial = w.queues_added;
          remote_path = remote;
          uploader = uploader;
          failures = no_failures;
        },
      )
      ∷ delete id w.cameras;
  queues_added = w.queues_added + 1;
  queue_order = w.queue_order ++ (id ∷ []);
}

-- the first occurrence goes
abbrev pub remove_first : Name → List Name → List Name
remove_first id [] = []
remove_first id (x ∷ xs) = let rest = remove_first id xs in if name_eq x id then xs else x ∷ rest

unfoldable pub remove_queue : Name → UploadWorker → UploadWorker
remove_queue id w = record w {
  cameras = delete id w.cameras;
  queue_order = remove_first id w.queue_order;
}
