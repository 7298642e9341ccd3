-- ===== src/Queue/Manager.antt =====
-- internal/queue/manager.go: the queues of all cameras and the checks of memory and disk space. The map
-- of queues is a list without double ids; Go ranges over it in any order, and here the order does not
-- matter since every queue is treated for itself. A pass over the queues runs without the lock; it is
-- one step here, since each operation of a queue locks that queue.
pub mod Registry
pub mod Pressure
pub mod Relief
use aviationwx_bridge.Prelude.{
  Bool, Instant, Option, [], false, if◌then◌else◌, ltb, none, some, true, ℕ, ◌*◌, ◌+◌, ◌==◌, ◌∷◌,
}
use aviationwx_bridge.Queue.Names.{Name}
use aviationwx_bridge.Queue.Names.Table.{Table, delete, find}
use aviationwx_bridge.Queue.Disk.{Dir, Os}
use aviationwx_bridge.Queue.State.{
  Queue, QueueConfig, Ratio, mega, percent, try_resume_capture_if_paused,
}
use aviationwx_bridge.Queue.Removal.{emergency_thin, expire_old_images}
use aviationwx_bridge.Queue.Intake.{new_queue, scan_directory}

pub record GlobalQueueConfig : Type 0 where
  pub max_total_size_mb : ℕ
  pub memory_check_seconds : ℕ
  pub emergency_thin_ratio : Ratio
  pub max_heap_mb : ℕ

unfoldable pub default_global_queue_config : GlobalQueueConfig
default_global_queue_config = record {
  max_total_size_mb = 100;
  memory_check_seconds = 5;
  emergency_thin_ratio = percent 50;
  max_heap_mb = 400;
}

abbrev pub Queues : Type 0
Queues = Table Queue

pub record QueueManager : Type 0 where
  pub queues : Queues
  pub global_config : GlobalQueueConfig
  pub current_total_size : ℕ

unfoldable pub new_manager : GlobalQueueConfig → QueueManager
new_manager config = record { queues = []; global_config = config; current_total_size = 0 }

unfoldable pub get_queue : Name → QueueManager → Option Queue
get_queue id m = find id m.queues

pub data CreateResult : Type 0 where
  created : Queue → CreateResult
  already_exists scan_failed : CreateResult

-- `CreateQueue`, where `dir` is what the directory of the camera holds
unfoldable pub create_queue :
    Os → Name → QueueConfig → Dir → QueueManager → QueueManager × CreateResult
create_queue os id config dir m = elim (find id m.queues) [
  | some q ↦ (m, already_exists)
  | none ↦ elim (scan_directory os (new_queue config dir)) [
    | none ↦ (m, scan_failed)
    | some q ↦ (record m { queues = (id, q) ∷ m.queues }, created q)
  ]
]

-- `RemoveQueue`; the removal of the directory is left to the disk. The test is false if the id is not
-- known.
unfoldable pub remove_queue : Name → QueueManager → QueueManager × Bool
remove_queue id m = elim (find id m.queues) [
  | none ↦ (m, false)
  | some q ↦ (record m { queues = delete id m.queues }, true)
]

abbrev pub sum_sizes : Queues → ℕ
sum_sizes [] = 0
sum_sizes (p ∷ ps) = p.1.total_size_bytes + sum_sizes ps

abbrev pub sum_counts : Queues → ℕ
sum_counts [] = 0
sum_counts (p ∷ ps) = p.1.image_count + sum_counts ps

unfoldable pub get_total_queue_size : QueueManager → ℕ
get_total_queue_size m = sum_sizes m.queues

unfoldable pub get_total_image_count : QueueManager → ℕ
get_total_image_count m = sum_counts m.queues

unfoldable pub snapshot_queues : QueueManager → QueueManager
snapshot_queues m = record m { current_total_size = sum_sizes m.queues }

-- one operation on each queue
abbrev pub each : (Name → Queue → Queue) → Queues → Queues
each f [] = []
each f (p ∷ ps) = (p.0, f p.0 p.1) ∷ each f ps

abbrev pub Disks : Type 0
Disks = Name → Os

unfoldable pub thin_all : Disks → Ratio → QueueManager → QueueManager
thin_all disks keep m = record m {
  queues = each (λ id q. (emergency_thin (disks id) keep q).0) m.queues;
}

unfoldable pub try_resume_paused_captures : QueueManager → QueueManager
try_resume_paused_captures m = record m {
  queues = each (λ id q. (try_resume_capture_if_paused q).0) m.queues;
}

-- what `Statfs` answers, in bytes
pub record FsStat : Type 0 where
  pub total_bytes : ℕ
  pub free_bytes : ℕ

-- a percentage below 10 or 20, as a comparison of whole numbers
unfoldable pub check_filesystem_space : Disks → Option FsStat → QueueManager → QueueManager
check_filesystem_space disks stat m = elim stat [
  | none ↦ m
  | some s ↦
      if s.total_bytes == 0
      then m
      else if ltb (s.free_bytes * 10) s.total_bytes
      then thin_all disks (percent 30) m
      else if ltb (s.free_bytes * 5) s.total_bytes
      then thin_all disks (percent 50) m
      else try_resume_paused_captures m
]

-- what the system answers during one check
pub record PressureEnv : Type 0 where
  pub size_disks : Disks
  pub space_disks : Disks
  pub heap_disks : Disks
  pub stat : Option FsStat
  pub heap_alloc : ℕ

unfoldable pub check_memory_pressure : PressureEnv → QueueManager → QueueManager
check_memory_pressure env m0 =
    let m = snapshot_queues m0 in
    let m1 =
      if ltb (m.global_config.max_total_size_mb * mega) (sum_sizes m.queues)
      then thin_all env.size_disks m.global_config.emergency_thin_ratio m
      else m in
    let m2 = check_filesystem_space env.space_disks env.stat m1 in
    if ltb (m.global_config.max_heap_mb * mega) env.heap_alloc
    then thin_all env.heap_disks (percent 30) m2
    else m2

-- the loop of `ExpireAllOldImages`, with its total
unfoldable pub expire_all : Disks → Instant → Queues → Queues × ℕ
expire_all disks now [] = ([], 0)
expire_all disks now (p ∷ ps) =
    let r = expire_old_images (disks p.0) now p.1 in
    let rest = expire_all disks now ps in ((p.0, r.0) ∷ rest.0, r.1 + rest.1)

unfoldable pub expire_all_old_images : Disks → Instant → QueueManager → QueueManager × ℕ
expire_all_old_images disks now m =
    let r = expire_all disks now m.queues in (record m { queues = r.0 }, r.1)
