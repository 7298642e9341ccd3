-- ===== src/Queue/Intake.antt =====
-- `Enqueue` of internal/queue/queue.go, with its space checks, and `scanDirectory` of `NewQueue`.
-- A partial write leaves only a `.tmp` file, which no listing shows and the model leaves out.
use aviationwx_bridge.Prelude.{
  Bool, Instant, List, Option, [], after, before, false, if◌then◌else◌, is_zero, leb, length, ltb,
  none, not, second, some, suc, take, true, zero, zero_time, ℕ, ◌*◌, ◌+◌, ◌-◌, ◌||◌, ◌∷◌,
}
use aviationwx_bridge.Queue.Names.{
  Name, digits_value, file_name, jpg, millisecond, trim_suffix, unix_milli,
}
use aviationwx_bridge.Queue.Disk.{Dir, Entry, Os, exists, list_files_sorted, total}
use aviationwx_bridge.Queue.State.{Queue, QueueConfig, healthy, percent, update_health_level}
use aviationwx_bridge.Queue.Removal.{
  by_thinning, emergency_thin, first_timestamp, last_timestamp, recalculate_oldest, remove_counted,
  tally,
}

-- `hasSpaceForImageLocked`: optimistic if the free space is not known
unfoldable pub has_space_for_image : Os → ℕ → Queue → Bool
has_space_for_image os size q = elim (os.free q.dir) [
  | none ↦ true
  | some free ↦ ltb (size * 2) free
]

-- the loop of `emergencyThinForSpaceLocked`: it stops once there is space
unfoldable pub space_loop : Os → ℕ → List Entry → Queue → Queue × ℕ
space_loop os needed [] q = (q, 0)
space_loop os needed (file ∷ files) q =
    let r = remove_counted os by_thinning file q in
    let rest = space_loop os needed files r.0 in
    if has_space_for_image os needed r.0 then (r.0, tally r.1 0) else (rest.0, tally r.1 rest.1)

-- it recalculates the timestamps, and not the health
abbrev pub settle_space : Os → Queue × ℕ → Queue
settle_space os (q, zero) = q
settle_space os (q, suc n) = recalculate_oldest os q

unfoldable pub emergency_thin_for_space : Os → ℕ → Queue → Queue
emergency_thin_for_space os needed q = elim (list_files_sorted os q.dir) [
  | none ↦ q
  | some files ↦
      if leb (length files) 1
      then q
      else settle_space os (space_loop os needed (take (length files - 1) files) q)
]

-- the `for` that adds a millisecond while the name is taken
unfoldable pub fresh_time : ℕ → Dir → Instant → Instant
fresh_time zero dir t = t
fresh_time (suc fuel) dir t =
    let later = fresh_time fuel dir (t + millisecond) in
    if exists (file_name (unix_milli t)) dir then later else t

-- the number of a name, whatever its range
abbrev pub or_zero : Option ℕ → ℕ
or_zero none = 0
or_zero (some v) = v

abbrev pub number_of : Name → ℕ
number_of n = or_zero (digits_value 0 (trim_suffix jpg n))

-- a number above that of every name
abbrev pub number_bound : Dir → ℕ
number_bound [] = 0
number_bound (e ∷ dir) =
    let rest = number_bound dir in
    if ltb rest (suc (number_of e.name)) then suc (number_of e.name) else rest

-- enough rounds: past the bound no name is taken
unfoldable pub first_free_time : Dir → Instant → Instant
first_free_time dir t = fresh_time (suc (number_bound dir)) dir t

-- What `os.WriteFile` and `os.Rename` answer.
pub data WriteOutcome : Type 0 where
  written no_space write_failed : WriteOutcome

pub record WriteEnv : Type 0 where
  pub first_write : WriteOutcome
  pub second_write : WriteOutcome
  pub rename : Bool

pub data EnqueueError : Type 0 where
  capture_paused_error invalid_image from_future image_expired queue_full : EnqueueError
  write_error rename_error : EnqueueError

pub data WriteResult : Type 0 where
  done not_written : WriteResult
  error : EnqueueError → WriteResult

-- the rename to the final name
unfoldable pub finalize : WriteEnv → Name → ℕ → Queue → Queue × WriteResult
finalize env name size q =
    if env.rename
    then (
      record q {
        dir = record { name = name; size = size; is_dir = false; has_info = true } ∷ q.dir;
      },
      done,
    )
    else (q, error rename_error)

-- the retry of `writeImageWithRetry`, after the cleanup that keeps 30%
unfoldable pub retry_write : WriteOutcome → WriteEnv → Name → ℕ → Queue → Queue × WriteResult
retry_write written env name size q = finalize env name size q
retry_write no_space env name size q = (q, not_written)
retry_write write_failed env name size q = (q, error write_error)

unfoldable pub write_image : WriteOutcome → Os → WriteEnv → Name → ℕ → Queue → Queue × WriteResult
write_image written os env name size q = finalize env name size q
write_image no_space os env name size q =
    retry_write env.second_write env name size (emergency_thin os (percent 30) q).0
write_image write_failed os env name size q = (q, error write_error)

-- the counters and timestamps after a write
unfoldable pub count_enqueued : Instant → ℕ → Queue → Queue
count_enqueued t size q = record q {
  image_count = q.image_count + 1;
  total_size_bytes = q.total_size_bytes + size;
  images_queued = q.images_queued + 1;
  newest_timestamp = if after t q.newest_timestamp then t else q.newest_timestamp;
  oldest_timestamp =
      if is_zero q.oldest_timestamp || before t q.oldest_timestamp then t else q.oldest_timestamp;
}

unfoldable pub after_write : Instant → ℕ → Queue × WriteResult → Queue × Option EnqueueError
after_write t size (q, done) = (update_health_level (count_enqueued t size q), none)
after_write t size (q, not_written) =
    (record q { capture_paused = true; pause_signal = true }, some queue_full)
after_write t size (q, error e) = (q, some e)

-- what follows the checks of the arguments
unfoldable pub store_image : Os → WriteEnv → ℕ → Instant → Queue → Queue × Option EnqueueError
store_image os env size t q =
    let q1 =
      if not (has_space_for_image os size q) then emergency_thin_for_space os size q else q in
    let t' = first_free_time q1.dir t in
    after_write t' size (write_image env.first_write os env (file_name (unix_milli t')) size q1)

-- `Enqueue`; the caller starts `thinQueue` in the background where `should_thin` holds after it
unfoldable pub enqueue : Os → WriteEnv → ℕ → Instant → Instant → Queue → Queue × Option EnqueueError
enqueue os env size t now q =
    if q.capture_paused
    then (q, some capture_paused_error)
    else if ltb size 100
    then (q, some invalid_image)
    else if after t (now + 5 * second)
    then (q, some from_future)
    else if ltb (t + q.config.max_age_seconds * second) now
    then (q, some image_expired)
    else store_image os env size t q

unfoldable pub new_queue : QueueConfig → Dir → Queue
new_queue config dir = record {
  config = config;
  dir = dir;
  image_count = 0;
  total_size_bytes = 0;
  oldest_timestamp = zero_time;
  newest_timestamp = zero_time;
  health_level = healthy;
  capture_paused = false;
  images_queued = 0;
  images_uploaded = 0;
  images_thinned = 0;
  images_expired = 0;
  pause_signal = false;
  resume_signal = false;
}

-- the counts and timestamps of `scanDirectory`
abbrev pub scanned_state : List Entry → Queue → Queue
scanned_state [] q = record q { image_count = 0; total_size_bytes = 0 }
scanned_state (file ∷ files) q = record q {
  image_count = length (file ∷ files);
  total_size_bytes = total (file ∷ files);
  oldest_timestamp = first_timestamp (file ∷ files);
  newest_timestamp = last_timestamp (file ∷ files);
}

-- `NewQueue` with `scanDirectory`; `none` is its error
unfoldable pub scan_directory : Os → Queue → Option Queue
scan_directory os q = elim (list_files_sorted os q.dir) [
  | none ↦ none
  | some files ↦ some (update_health_level (scanned_state files q))
]
