-- ===== src/Queue/Removal.antt =====
-- The operations of internal/queue/queue.go that take images out: after an upload, by age, by
-- thinning, and in an emergency. `ImageCount` and `TotalSizeBytes` are natural numbers: in a queue
-- whose counters agree with its directory no subtraction below falls under 0.
use aviationwx_bridge.Prelude.{
  Bool, Duration, Instant, List, [], before, false, if◌then◌else◌, leb, length, ltb, none, second,
  some, suc, take, true, zero, zero_time, ℕ, ◌*◌, ◌+◌, ◌-◌, ◌/◌, ◌==◌, ◌∷◌,
}
use aviationwx_bridge.Queue.Names.{Name, parse_timestamp}
use aviationwx_bridge.Queue.Disk.{
  Entry, Os, failed, list_files_sorted, not_exist, remove, removed, total,
}
use aviationwx_bridge.Queue.State.{Queue, Ratio, update_health_level}

abbrev pub first_timestamp : List Entry → Instant
first_timestamp [] = zero_time
first_timestamp (e ∷ es) = parse_timestamp e.name

abbrev pub last_timestamp : List Entry → Instant
last_timestamp [] = zero_time
last_timestamp (e ∷ []) = parse_timestamp e.name
last_timestamp (e ∷ f ∷ es) = last_timestamp (f ∷ es)

-- `recalculateOldestLocked`
unfoldable pub recalculate_oldest : Os → Queue → Queue
recalculate_oldest os q = elim (list_files_sorted os q.dir) [
  | none ↦ record q { oldest_timestamp = zero_time; newest_timestamp = zero_time }
  | some files ↦ record q {
    oldest_timestamp = first_timestamp files;
    newest_timestamp = last_timestamp files;
  }
]

-- `resyncCountsFromDiskLocked`
unfoldable pub resync_counts_from_disk : Os → Queue → Queue
resync_counts_from_disk os q = elim (list_files_sorted os q.dir) [
  | none ↦ q
  | some files ↦ record q { image_count = length files; total_size_bytes = total files }
]

pub data Reason : Type 0 where
  by_thinning by_age : Reason

abbrev pub count_reason : Reason → Queue → Queue
count_reason by_thinning q = record q { images_thinned = q.images_thinned + 1 }
count_reason by_age q = record q { images_expired = q.images_expired + 1 }

-- the body of each removing loop: `os.Remove` and, if it succeeds, the counters
unfoldable pub remove_counted : Os → Reason → Entry → Queue → Queue × Bool
remove_counted os reason file q = elim ((remove os file.name q.dir).1) [
  | removed ↦ (
    count_reason reason (record q {
      dir = (remove os file.name q.dir).0;
      image_count = q.image_count - 1;
      total_size_bytes = q.total_size_bytes - file.size;
    }),
    true,
  )
  | not_exist ↦ (q, false)
  | failed ↦ (q, false)
]

abbrev pub tally : Bool → ℕ → ℕ
tally true n = suc n
tally false n = n

unfoldable pub remove_all : Os → Reason → List Entry → Queue → Queue × ℕ
remove_all os reason [] q = (q, 0)
remove_all os reason (file ∷ files) q =
    let r = remove_counted os reason file q in
    let rest = remove_all os reason files r.0 in (rest.0, tally r.1 rest.1)

-- `if removed > 0 { … }` at the end of each
unfoldable pub settle : Os → Queue × ℕ → Queue × ℕ
settle os (q, zero) = (q, zero)
settle os (q, suc n) = (update_health_level (recalculate_oldest os q), suc n)

-- `int(float64(n) * keepRatio)`, at least 1; for the ratios of the program, 0.3 and 0.5, the product
-- of floats rounds to the exact one wherever that is whole
unfoldable pub keep_count : Ratio → ℕ → ℕ
keep_count ratio n = let k = n * ratio.num / ratio.den in if ltb k 1 then 1 else k

-- `EmergencyThin` and `emergencyThinLocked`, which differ in the lock and the log only
unfoldable pub emergency_thin : Os → Ratio → Queue → Queue × ℕ
emergency_thin os keep_ratio q = elim (list_files_sorted os q.dir) [
  | none ↦ (q, 0)
  | some files ↦
      let n = length files in
      if n == 0
      then (q, 0)
      else if leb n (keep_count keep_ratio n)
      then (q, 0)
      else settle os (remove_all os by_thinning (take (n - keep_count keep_ratio n) files) q)
]

-- the loop of `ExpireOldImages`, which stops at the first file that is young enough
unfoldable pub expire_loop : Os → Instant → Duration → List Entry → Queue → Queue × ℕ
expire_loop os now max_age [] q = (q, 0)
expire_loop os now max_age (file ∷ files) q =
    let r = remove_counted os by_age file q in
    let rest = expire_loop os now max_age files r.0 in
    if before (parse_timestamp file.name + max_age) now then (rest.0, tally r.1 rest.1) else (q, 0)

unfoldable pub expire_old_images : Os → Instant → Queue → Queue × ℕ
expire_old_images os now q = elim (list_files_sorted os q.dir) [
  | none ↦ (q, 0)
  | some files ↦ settle os (expire_loop os now (q.config.max_age_seconds * second) files q)
]

-- An image that an upload or a read has in hand: `QueuedImage`.
pub record QueuedImage : Type 0 where
  pub filename : Name
  pub timestamp : Instant
  pub size_bytes : ℕ

unfoldable pub mark_uploaded : Os → QueuedImage → Queue → Queue × Bool
mark_uploaded os img q = elim ((remove os img.filename q.dir).1) [
  | not_exist ↦
      let q' = update_health_level (recalculate_oldest os (resync_counts_from_disk os q)) in
      (record q' { images_uploaded = q'.images_uploaded + 1 }, true)
  | failed ↦ (q, false)
  | removed ↦ (
    update_health_level (
        recalculate_oldest os (record q {
          dir = (remove os img.filename q.dir).0;
          image_count = q.image_count - 1;
          total_size_bytes = q.total_size_bytes - img.size_bytes;
          images_uploaded = q.images_uploaded + 1;
        })),
    true,
  )
]

unfoldable pub drop_queued_image : Os → QueuedImage → Queue → Queue × Bool
drop_queued_image os img q = elim ((remove os img.filename q.dir).1) [
  | not_exist ↦ (update_health_level (recalculate_oldest os (resync_counts_from_disk os q)), true)
  | failed ↦ (q, false)
  | removed ↦ (
    update_health_level (
        recalculate_oldest os (record q {
          dir = (remove os img.filename q.dir).0;
          image_count = if ltb 0 q.image_count then q.image_count - 1 else q.image_count;
          total_size_bytes =
              if leb img.size_bytes q.total_size_bytes
              then q.total_size_bytes - img.size_bytes
              else 0;
        })),
    true,
  )
]
