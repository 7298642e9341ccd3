-- ===== src/Scheduler/Orchestrator.antt =====
-- internal/scheduler/orchestrator.go: the cameras that are captured and uploaded. A queue is one object
-- that the queue manager, the capture worker and the upload worker share; the model keeps it in the
-- queue manager, from where a capture takes it and where it puts it back. The time authority and a
-- client are told by numbers. Each method is one step; the setters of the two limits hold the lock only
-- for a part of theirs.
pub mod Waking
pub mod Wakes
pub mod Raising
pub mod Operations
pub mod Limits
pub mod Ids
pub mod Adding
pub mod Late
pub mod Kept
pub mod Consistent
mod Examples
use aviationwx_bridge.Prelude.{
  Bool, Instant, Option, [], false, if◌then◌else◌, is_zero, leb, ltb, none, not, second, some, true,
  zero_time, ℕ, ◌*◌, ◌/◌, ◌==◌, ◌||◌, ◌∷◌,
}
use aviationwx_bridge.Queue.Names.{Name, name_eq}
use aviationwx_bridge.Queue.Names.Table.{Table, delete, store}
use aviationwx_bridge.Queue.Disk.{Dir, Os}
use aviationwx_bridge.Queue.State.{Queue, default_queue_config, percent}
use aviationwx_bridge.Queue.Manager.{
  CreateResult, QueueManager, already_exists, create_queue, created, new_manager, scan_failed,
  remove_queue as remove_managed,
}
use aviationwx_bridge.Scheduler.Gate.{CaptureGate, new_capture_gate}
use aviationwx_bridge.Scheduler.Capture.{CaptureWorker, capture_interval}
use aviationwx_bridge.Scheduler.Upload.{
  UploadWorker, add_queue, clamp, new_upload_worker, set_max_concurrent, set_uploader, start_pool,
  remove_queue as remove_upload,
}

abbrev pub max_concurrent_captures_cap : ℕ
max_concurrent_captures_cap = 10

-- between 1 and 10
abbrev slots : ℕ → ℕ
slots n = if ltb n 1 then 1 else if ltb 10 n then 10 else n

-- internal/hardware/captures.go, `computeDefaultMaxConcurrentCaptures`; an unknown frequency is 0
unfoldable pub default_max_concurrent_captures : ℕ → ℕ → ℕ → ℕ
default_max_concurrent_captures total_mb num_cpu max_freq_mhz =
    let mem_slots = slots (total_mb / 500) in
    let cpu_slots = slots (num_cpu / 2) in
    if max_freq_mhz == 0 || leb 2000 max_freq_mhz
    then mem_slots
    else if ltb cpu_slots mem_slots
    then cpu_slots
    else mem_slots

-- `wake`: whether the channel of the worker, which holds one, is full
pub record Worker : Type 0 where
  pub capture : CaptureWorker
  pub authority : ℕ
  pub wake : Bool
  pub running : Bool

pub record OrchestratorConfig : Type 0 where
  pub queue_max_total_mb : ℕ
  pub queue_max_heap_mb : ℕ
  pub timezone : Name
  pub auth_backoff_secs : ℕ
  pub max_concurrent_uploads : ℕ
  pub max_concurrent_captures : ℕ

pub record Orchestrator : Type 0 where
  pub queue_manager : QueueManager
  pub capture_workers : Table Worker
  pub capture_gate : CaptureGate
  pub upload_worker : Option UploadWorker
  pub upload_running : Bool
  pub authority : ℕ
  pub config : OrchestratorConfig
  pub start_time : Instant
  pub stopped : Bool

-- the limit of `NewOrchestrator`, where 0 stands for a limit that is not set
unfoldable pub initial_captures : ℕ → ℕ → ℕ
initial_captures profiled mc0 =
    let mc = if mc0 == 0 then profiled else mc0 in
    if ltb max_concurrent_captures_cap mc then max_concurrent_captures_cap else mc

-- `NewOrchestrator`, once the queue manager and the authority are there
unfoldable pub new_orchestrator : ℕ → ℕ → OrchestratorConfig → Orchestrator
new_orchestrator profiled authority c =
    let mc = initial_captures profiled c.max_concurrent_captures in
    record {
      queue_manager = new_manager (record {
        max_total_size_mb = c.queue_max_total_mb;
        memory_check_seconds = 5;
        emergency_thin_ratio = percent 50;
        max_heap_mb = c.queue_max_heap_mb;
      });
      capture_workers = [];
      capture_gate = new_capture_gate mc;
      upload_worker = none;
      upload_running = false;
      authority = authority;
      config = record c { max_concurrent_captures = mc };
      start_time = zero_time;
      stopped = false;
    }

-- `NewCaptureWorker`
unfoldable pub new_capture_worker : Queue → ℕ → Instant → CaptureWorker
new_capture_worker q interval_secs now = record {
  queue = q;
  state = record {
    last_success = zero_time;
    last_error = none;
    last_error_time = zero_time;
    next_attempt = now;
    backoff_seconds = 0;
    failure_count = 0;
    success_count = 0;
    is_backing_off = false;
  };
  interval = capture_interval interval_secs;
  captures_total = 0;
  captures_failed = 0;
  exif_write_failed = 0;
  next_capture_time = zero_time;
  currently_capturing = false;
  last_capture_time = zero_time;
  gated = true;
  pending_capture = false;
}

-- the upload worker, made if it is not there yet
abbrev pub upload_worker_or_new : OrchestratorConfig → Instant → Option UploadWorker → UploadWorker
upload_worker_or_new c now (some w) = w
upload_worker_or_new c now none =
    new_upload_worker
      (record {
        config_max_concurrent =
            if c.max_concurrent_uploads == 0 then 2 else c.max_concurrent_uploads;
        config_catchup_threshold = 0;
        config_auth_backoff = c.auth_backoff_secs * second;
      })
      now

-- a camera as its caller gives it
pub record NewCamera : Type 0 where
  pub camera_id : Name
  pub remote_path : Name
  pub interval_secs : ℕ
  pub uploader : Option ℕ

-- the rest of `AddCamera`, after `CreateQueue`
abbrev pub with_queue :
    Instant → NewCamera → QueueManager × CreateResult → Orchestrator → Orchestrator × Bool
with_queue now cam (m, created q) o = (
  record o {
    queue_manager = m;
    capture_workers =
        store cam.camera_id
          (record {
            capture = new_capture_worker q cam.interval_secs now;
            authority = o.authority;
            wake = false;
            running = not (is_zero o.start_time);
          })
          o.capture_workers;
    upload_worker = some (
        add_queue cam.camera_id q cam.remote_path cam.uploader
          (upload_worker_or_new o.config now o.upload_worker));
  },
  true,
)
with_queue now cam (m, already_exists) o = (record o { queue_manager = m }, false)
with_queue now cam (m, scan_failed) o = (record o { queue_manager = m }, false)

unfoldable pub add_camera : Os → Dir → Instant → NewCamera → Orchestrator → Orchestrator × Bool
add_camera os dir now cam o =
    with_queue now cam (create_queue os cam.camera_id default_queue_config dir o.queue_manager) o

abbrev pub map_option : {A : Type 0} → (A → A) → Option A → Option A
map_option f none = none
map_option f (some a) = some (f a)

unfoldable pub remove_camera : Name → Orchestrator → Orchestrator × Bool
remove_camera id o =
    let r = remove_managed id o.queue_manager in
    (
      record o {
        capture_workers = delete id o.capture_workers;
        upload_worker = map_option (remove_upload id) o.upload_worker;
        queue_manager = r.0;
      },
      r.1,
    )

-- one change of every worker
abbrev pub each_worker : (Worker → Worker) → Table Worker → Table Worker
each_worker f [] = []
each_worker f (p ∷ ps) = (p.0, f p.1) ∷ each_worker f ps

-- `SetTimeAuthority`
unfoldable pub set_time_authority : ℕ → Orchestrator → Orchestrator
set_time_authority a o = record o {
  authority = a;
  capture_workers = each_worker (λ w. record w { authority = a }) o.capture_workers;
}

-- `SetTimeHealth`, where `new_authority` is what `NewAuthority` makes of the time zone, `current_zone`
-- is that of the old authority
unfoldable pub set_time_health : (Name → Option ℕ) → Name → Orchestrator → Orchestrator
set_time_health new_authority current_zone o =
    let tz = if name_eq o.config.timezone [] then current_zone else o.config.timezone in
    elim (new_authority tz) [ none ↦ o | some a ↦ set_time_authority a o ]

unfoldable pub set_bridge_timezone : Name → Orchestrator → Orchestrator
set_bridge_timezone tz o = record o { config = record o.config { timezone = tz } }

unfoldable pub set_max_concurrent_uploads : ℕ → Orchestrator → Orchestrator
set_max_concurrent_uploads n o = record o {
  config = record o.config { max_concurrent_uploads = clamp n };
  upload_worker = map_option (set_max_concurrent (clamp n)) o.upload_worker;
}

unfoldable pub set_camera_uploader : Name → ℕ → Orchestrator → Orchestrator
set_camera_uploader id uploader o = record o {
  upload_worker = map_option (set_uploader id uploader) o.upload_worker;
}

-- `Start`
unfoldable pub start_all : Instant → Orchestrator → Orchestrator
start_all now o = record o {
  start_time = now;
  capture_workers = each_worker (λ w. record w { running = true }) o.capture_workers;
  upload_worker = map_option start_pool o.upload_worker;
  upload_running = elim o.upload_worker [ none ↦ o.upload_running | some w ↦ true ];
}

-- `Stop`
unfoldable pub stop_all : Orchestrator → Orchestrator
stop_all o = record o {
  capture_workers = each_worker (λ w. record w { running = false }) o.capture_workers;
  upload_running = false;
  stopped = true;
}
