-- ===== src/Scheduler/Upload/Failures.antt =====
-- internal/scheduler/upload.go: what a worker counts and remembers of an upload that ended.
use aviationwx_bridge.Queue.Names.Table.{find}
use aviationwx_bridge.Prelude.{
  Bool, Duration, Instant, List, [], after, if◌then◌else◌, ltb, second, ℕ, ◌*◌, ◌+◌, ◌∷◌,
}
use aviationwx_bridge.Queue.Names.{Name, is_some}
use aviationwx_bridge.Scheduler.Upload.{
  FailureState, FilePath, UploadWorker, path_eq, truncate_day, update_camera,
}

unfoldable pub record_success : Instant → UploadWorker → UploadWorker
record_success now w =
    let today = truncate_day now in
    let fresh = after today w.today_date in
    record w {
      uploads_today = (if fresh then 0 else w.uploads_today) + 1;
      today_date = if fresh then today else w.today_date;
      uploads_success = w.uploads_success + 1;
      last_success_time = now;
    }

-- one more failure, and from the fourth on a backoff of at most 30 seconds
unfoldable pub note_failure : Instant → FailureState → FailureState
note_failure now s =
    let n = s.consecutive_failures + 1 in
    let backoff = if ltb (30 * second) (n * 5 * second) then 30 * second else n * 5 * second in
    record s {
      last_failure = now;
      consecutive_failures = n;
      backoff_until = if ltb 3 n then now + backoff else s.backoff_until;
    }

-- `recordFailure`. If the camera was removed, Go panics at its nil state after the counters, and the
-- worker recovers: the test is false then.
unfoldable pub record_failure : Instant → Name → Name → UploadWorker → UploadWorker × Bool
record_failure now id reason w = (
  update_camera id (λ c. record c { failures = note_failure now c.failures })
      (record w {
        uploads_failed = w.uploads_failed + 1;
        last_failure_time = now;
        last_failure_reason = reason;
      }),
  is_some (find id w.cameras),
)

unfoldable pub note_auth_failure : Instant → Duration → FailureState → FailureState
note_auth_failure now backoff s = record s {
  last_auth_failure = now;
  backoff_until = now + backoff;
  consecutive_failures = s.consecutive_failures + 1;
}

unfoldable pub handle_auth_failure : Instant → Name → UploadWorker → UploadWorker
handle_auth_failure now id w =
    update_camera id (λ c. record c { failures = note_auth_failure now w.auth_backoff c.failures })
      (record w {
        auth_failures = w.auth_failures + 1;
        uploads_failed = w.uploads_failed + 1;
        last_failure_time = now;
      })

abbrev pub read_failures_of : FilePath → List (FilePath × ℕ) → ℕ
read_failures_of path [] = 0
read_failures_of path (p ∷ ps) =
    let rest = read_failures_of path ps in if path_eq p.0 path then p.1 else rest

abbrev pub without_path : FilePath → List (FilePath × ℕ) → List (FilePath × ℕ)
without_path path [] = []
without_path path (p ∷ ps) =
    let rest = without_path path ps in if path_eq p.0 path then rest else p ∷ rest

unfoldable pub clear_file_read_failure : FilePath → UploadWorker → UploadWorker
clear_file_read_failure path w = record w {
  file_read_failures = without_path path w.file_read_failures;
}

-- `pruneStaleFileReadFailures`, where `present` is what `os.Stat` finds
abbrev pub keep_present : (FilePath → Bool) → List (FilePath × ℕ) → List (FilePath × ℕ)
keep_present present [] = []
keep_present present (p ∷ ps) =
    let rest = keep_present present ps in if present p.0 then p ∷ rest else rest

unfoldable pub prune_stale_file_read_failures : (FilePath → Bool) → UploadWorker → UploadWorker
prune_stale_file_read_failures present w = record w {
  file_read_failures = keep_present present w.file_read_failures;
}
