-- ===== src/Queue/Examples.antt =====
-- The theorems about the queue at concrete inputs, and tests of its functions.
use aviationwx_bridge.Prelude.{
  Instant, List, [], arith, drop, false, leb, length, refl, second, some, true, ℕ, ◌&&◌, ◌*◌, ◌++◌,
  ◌+◌, ◌-◌, ◌/◌, ◌<◌, ◌||◌, ◌∷◌, ◌≡◌, ◌≤◌, ◌⊎◌,
}
use aviationwx_bridge.Queue.Names.{
  Name, cut_suffix, decimal, decimal_fuel, digits_value, file_name, has_suffix, millisecond,
  parse_int, tmp, trim_suffix, unix_epoch, unix_milli,
}
use aviationwx_bridge.Queue.Disk.{Dir, Entry, Os, images, is_image, list_files_sorted, sort_by_name}
use aviationwx_bridge.Queue.Disk.Laws.{HasDistinctNames}
use aviationwx_bridge.Queue.State.{
  Queue, catching_up, critical, default_queue_config, degraded, mega, percent, rank,
  update_health_level,
}
use aviationwx_bridge.Queue.Removal.{emergency_thin, expire_old_images}
use aviationwx_bridge.Queue.Intake.{
  WriteEnv, enqueue, first_free_time, fresh_time, new_queue, no_space, scan_directory,
  scanned_state, written,
}
use aviationwx_bridge.Queue.Reading.{dequeue_next, err, queue_empty}
use aviationwx_bridge.Queue.Tracking.{Tracks}
use aviationwx_bridge.Queue.Tracking.Reachable.{Reach, Reach-Tracks, emergency, next, scanned}
use aviationwx_bridge.Queue.Health.{is_reached, update_health_level_lem}
use aviationwx_bridge.Queue.Dequeue.{Handed, dequeue_next_lem}
use aviationwx_bridge.Queue.Thinning.{thin_queue}
use aviationwx_bridge.Queue.Survivors.Emergency.{IsShare, IsSound, emergency_thin_keeps}
use aviationwx_bridge.Queue.Survivors.Expiry.{expire_old_images_keeps, old_count}
use aviationwx_bridge.Queue.Survivors.Ends.{KeepsEnds, thin_queue_protects}
use aviationwx_bridge.Queue.Manager.{
  FsStat, PressureEnv, QueueManager, check_filesystem_space, check_memory_pressure,
  default_global_queue_config, get_total_queue_size,
}
use aviationwx_bridge.Queue.Manager.Relief.{
  AllPairs, Keeps, NoMore, Resumed, check_filesystem_space_resumes, check_memory_pressure_relieves,
}
use aviationwx_bridge.Queue.Outcome.{Meaning, enqueue_lem}

abbrev entry_of : ℕ → ℕ → Entry
entry_of ms size = record { name = file_name ms; size = size; is_dir = false; has_info = true }

-- two images and a temporary file
abbrev stored : Dir
stored =
    entry_of 1700000002000 500
    ∷ entry_of 1700000001000 400
    ∷ record { name = decimal 17 ++ tmp; size = 9; is_dir = false; has_info = true }
    ∷ []

abbrev sound_disk : Os
sound_disk = record { can_read = true; can_remove = λ n. true; free = λ d. some 1000000 }

abbrev listing : List Entry
listing = entry_of 1700000001000 400 ∷ entry_of 1700000002000 500 ∷ []

listed : list_files_sorted sound_disk stored ≡ some listing
unfolding list_files_sorted is_image has_suffix trim_suffix cut_suffix parse_int file_name decimal
    decimal_fuel digits_value
listed = refl

abbrev taken_at : Instant
taken_at = unix_epoch + 1700000001000 * millisecond

name_taken : first_free_time stored taken_at ≡ taken_at + millisecond
unfolding first_free_time fresh_time unix_milli file_name decimal decimal_fuel digits_value
    trim_suffix cut_suffix
name_taken = refl

abbrev scanned_queue : Queue
scanned_queue = update_health_level (scanned_state listing (new_queue default_queue_config stored))

stored-HasDistinctNames : HasDistinctNames stored
unfolding file_name decimal decimal_fuel
stored-HasDistinctNames = (refl, (refl, (refl, tt)))

scanned_found :
    scan_directory sound_disk (new_queue default_queue_config stored) ≡ some scanned_queue
unfolding scan_directory new_queue
scanned_found = rw (listed, scan_directory) refl

scanned_reached : Reach default_queue_config scanned_queue
scanned_reached = scanned sound_disk stored scanned_queue stored-HasDistinctNames scanned_found

abbrev emptied : Queue
emptied = (emergency_thin sound_disk (percent 30) scanned_queue).0

Reach-Tracks_example : Tracks emptied
Reach-Tracks_example =
    Reach-Tracks default_queue_config
      (next scanned_reached (emergency sound_disk (percent 30) scanned_queue))

scanned-Tracks : Tracks scanned_queue
scanned-Tracks = Reach-Tracks default_queue_config scanned_reached

update_health_level_lem_example :
    let q = scanned_queue in
    let c = q.config in
    let r = update_health_level q in
    (leb (rank critical) (rank r.health_level) ≡ is_reached c.threshold_critical q)
    × (leb (rank degraded) (rank r.health_level)
        ≡ (is_reached c.threshold_critical q || is_reached c.threshold_degraded q))
    × (leb (rank catching_up) (rank r.health_level) ≡ (
        is_reached c.threshold_critical q
        || (is_reached c.threshold_degraded q || is_reached c.threshold_catching_up q)))
    × (r.capture_paused ≡ (
        (q.capture_paused || c.pause_capture_on_critical && is_reached c.threshold_critical q)
        && is_reached c.resume_threshold q))
    × (q.capture_paused ≡ true → r.capture_paused ≡ false → r.resume_signal ≡ true)
update_health_level_lem_example = update_health_level_lem scanned_queue

dequeue_next_lem_example :
    ((scanned_queue.image_count ≡ 0)
      × (dequeue_next sound_disk true scanned_queue ≡ err queue_empty))
    ⊎ Handed sound_disk true scanned_queue
dequeue_next_lem_example = dequeue_next_lem sound_disk true scanned_queue scanned-Tracks refl

abbrev disk_fills : WriteEnv
disk_fills = record { first_write = no_space; second_write = written; rename = true }

enqueue_lem_example :
    let r = enqueue sound_disk disk_fills 200 taken_at taken_at scanned_queue in
    Meaning 200 scanned_queue r.0 r.1
enqueue_lem_example =
    enqueue_lem sound_disk disk_fills 200 taken_at taken_at scanned_queue scanned-Tracks

sound_disk-IsSound : IsSound sound_disk
sound_disk-IsSound = (refl, λ n. refl)

abbrev by_name : List Entry
by_name = sort_by_name (images scanned_queue.dir)

emergency_thin_keeps_example :
    (k : ℕ) × IsShare (percent 30) (length by_name) k
    × (list_files_sorted sound_disk (emergency_thin sound_disk (percent 30) scanned_queue).0.dir
        ≡ some (drop (length by_name - k) by_name))
emergency_thin_keeps_example =
    emergency_thin_keeps sound_disk (percent 30) scanned_queue sound_disk-IsSound
      scanned-Tracks.distinct (omega arith)

-- an hour and one second after the first image
abbrev an_hour_later : Instant
an_hour_later = taken_at + 3601 * second

expire_old_images_keeps_example :
    list_files_sorted sound_disk (expire_old_images sound_disk an_hour_later scanned_queue).0.dir
    ≡ some (
        drop
          (old_count an_hour_later (scanned_queue.config.max_age_seconds * second) by_name)
          by_name)
expire_old_images_keeps_example =
    expire_old_images_keeps sound_disk an_hour_later scanned_queue sound_disk-IsSound
      scanned-Tracks.distinct

abbrev even_stride : ℕ → ℕ → ℕ → ℕ
even_stride i size gone = i * size / gone

thin_queue_protects_example :
    let c = scanned_queue.config in
    let dir = (thin_queue even_stride sound_disk scanned_queue).0.dir in
    (c.protect_oldest + c.protect_newest < length by_name
      → KeepsEnds dir by_name c.protect_oldest c.protect_newest)
    × (length by_name ≤ c.protect_oldest + c.protect_newest
        → KeepsEnds dir by_name (length by_name / 4) (length by_name / 4))
thin_queue_protects_example =
    thin_queue_protects even_stride sound_disk scanned_queue scanned-Tracks.distinct

abbrev camera : Name
camera = b'c' ∷ b'1' ∷ []

abbrev one_camera : QueueManager
one_camera = record {
  queues = (camera, scanned_queue) ∷ [];
  global_config = default_global_queue_config;
  current_total_size = 0;
}

abbrev crowded : PressureEnv
crowded = record {
  size_disks = λ id. sound_disk;
  space_disks = λ id. sound_disk;
  heap_disks = λ id. sound_disk;
  stat = some (record { total_bytes = 100; free_bytes = 5 });
  heap_alloc = 500 * mega;
}

check_memory_pressure_relieves_example :
    let r = check_memory_pressure crowded one_camera in
    AllPairs NoMore one_camera.queues r.queues
    × (one_camera.global_config.max_total_size_mb * mega < get_total_queue_size one_camera
        → AllPairs (Keeps one_camera.global_config.emergency_thin_ratio) one_camera.queues r.queues)
    × (one_camera.global_config.max_heap_mb * mega < crowded.heap_alloc
        → AllPairs (Keeps (percent 30)) one_camera.queues r.queues)
unfolding default_global_queue_config
check_memory_pressure_relieves_example =
    check_memory_pressure_relieves crowded one_camera (λ id. sound_disk-IsSound)
      (λ id. sound_disk-IsSound) (λ id. sound_disk-IsSound) (scanned-Tracks, tt) (omega arith)

abbrev roomy : FsStat
roomy = record { total_bytes = 100; free_bytes = 50 }

check_filesystem_space_resumes_example :
    AllPairs Resumed one_camera.queues
      (check_filesystem_space crowded.space_disks (some roomy) one_camera).queues
check_filesystem_space_resumes_example =
    check_filesystem_space_resumes crowded.space_disks roomy one_camera (scanned-Tracks, tt)
      (omega arith) (omega arith)
