-- ===== src/Scheduler/Upload/Transfer.antt =====
-- internal/scheduler/upload.go: one upload, with its retry, its deadline and what it counts.
use aviationwx_bridge.Queue.Names.Table.{find}
use aviationwx_bridge.Prelude.{
  Bool, Duration, Instant, List, Option, [], false, if◌then◌else◌, leb, ltb, minute, none, second,
  some, true, ℕ, ◌&&◌, ◌*◌, ◌++◌, ◌+◌, ◌/◌, ◌==◌, ◌||◌, ◌∷◌,
}
use aviationwx_bridge.Queue.Names.{Name, file_name, name_eq, trim_suffix, unix_milli}
use aviationwx_bridge.Queue.Disk.{Os}
use aviationwx_bridge.Queue.Removal.{QueuedImage, drop_queued_image}
use aviationwx_bridge.Scheduler.Upload.Failures.{
  clear_file_read_failure, handle_auth_failure, read_failures_of, record_failure, record_success,
  without_path,
}
use aviationwx_bridge.Scheduler.Upload.{
  FilePath, UploadTask, UploadWorker, max_file_read_failures, update_camera,
}

-- strings.ToLower on ASCII, strings.HasPrefix, strings.Contains
abbrev lower_byte : ℕ → ℕ
lower_byte c = if leb b'A' c && leb c b'Z' then c + 32 else c

abbrev pub to_lower : Name → Name
to_lower [] = []
to_lower (c ∷ s) = lower_byte c ∷ to_lower s

abbrev pub has_prefix : Name → Name → Bool
has_prefix [] s = true
has_prefix (a ∷ p) [] = false
has_prefix (a ∷ p) (c ∷ s) = a == c && has_prefix p s

abbrev pub contains_text : Name → Name → Bool
contains_text p [] = has_prefix p []
contains_text p (c ∷ s) = has_prefix p (c ∷ s) || contains_text p s

-- "auth", "401", "403", "login", "credential", "permission", "access denied"
abbrev pub auth_words : List Name
auth_words =
    (b'a' ∷ b'u' ∷ b't' ∷ b'h' ∷ [])
    ∷ (b'4' ∷ b'0' ∷ b'1' ∷ [])
    ∷ (b'4' ∷ b'0' ∷ b'3' ∷ [])
    ∷ (b'l' ∷ b'o' ∷ b'g' ∷ b'i' ∷ b'n' ∷ [])
    ∷ (b'c' ∷ b'r' ∷ b'e' ∷ b'd' ∷ b'e' ∷ b'n' ∷ b't' ∷ b'i' ∷ b'a' ∷ b'l' ∷ [])
    ∷ (b'p' ∷ b'e' ∷ b'r' ∷ b'm' ∷ b'i' ∷ b's' ∷ b's' ∷ b'i' ∷ b'o' ∷ b'n' ∷ [])
    ∷ (b'a' ∷ b'c' ∷ b'c' ∷ b'e' ∷ b's' ∷ b's' ∷ 32 ∷ b'd' ∷ b'e' ∷ b'n' ∷ b'i' ∷ b'e' ∷ b'd' ∷ [])
    ∷ []

abbrev any_word : List Name → Name → Bool
any_word [] s = false
any_word (p ∷ ps) s = contains_text p s || any_word ps s

-- the error by its text
unfoldable pub is_auth_error : Name → Bool
is_auth_error err = any_word auth_words (to_lower err)

-- the deadline of an upload of so many bytes
unfoldable pub max_upload_time : ℕ → Duration
max_upload_time size =
    let t = 90 * second + size / (5 * 1024) * second in
    let capped = if ltb (15 * minute) t then 15 * minute else t in
    if ltb capped (3 * minute) then 3 * minute else capped

abbrev pub slash : Name
slash = b'/' ∷ []

unfoldable pub build_remote_path : Name → Name → Instant → Name
build_remote_path base id timestamp =
    let b = if name_eq base [] then id else base in
    trim_suffix slash b ++ slash ++ file_name (unix_milli timestamp)

-- what `readImageFile` answers
pub data ReadFile : Type 0 where
  content : ℕ → ReadFile
  no_file : ReadFile
  unreadable : Name → ReadFile

-- What happens to an upload: the answers of the two calls of `Upload`, `none` for success, or the
-- deadline first, before or after the retry began. A panic of the client is a failure with its text.
pub data Transfer : Type 0 where
  answered : Option Name → Option Name → Transfer
  deadline : Bool → Transfer

-- the text of the error that the deadline makes
abbrev pub timeout_text : Name
timeout_text = b't' ∷ b'i' ∷ b'm' ∷ b'e' ∷ b'o' ∷ b'u' ∷ b't' ∷ []

abbrev pub count_retry : UploadWorker → UploadWorker
count_retry w = record w { uploads_retried = w.uploads_retried + 1 }

-- the end of a failed upload: `handleAuthFailure` is not reached if `recordFailure` panics
abbrev pub after_failure : Instant → Name → Name → UploadWorker × Bool → UploadWorker × Bool
after_failure now id err (w, true) =
    (if is_auth_error err then handle_auth_failure now id w else w, false)
after_failure now id err (w, false) = (w, false)

unfoldable pub fail_upload : Instant → Name → Name → UploadWorker → UploadWorker × Bool
fail_upload now id err w = after_failure now id err (record_failure now id err w)

-- the goroutine of the transfer and the `select` on its result
unfoldable pub transfer : Transfer → Instant → Name → UploadWorker → UploadWorker × Bool
transfer (answered none second_answer) now id w = (record_success now w, true)
transfer (answered (some err) second_answer) now id w =
    if is_auth_error err then fail_upload now id err w else retry_answer second_answer
  where
    retry_answer : Option Name → UploadWorker × Bool
    retry_answer none = (record_success now (count_retry w), true)
    retry_answer (some err2) = fail_upload now id err2 (count_retry w)
transfer (deadline retried) now id w =
    ((record_failure now id timeout_text (if retried then count_retry w else w)).0, false)

-- `DropQueuedImage` of the camera's queue, if the camera is there; the test tells whether the image
-- was dropped
unfoldable pub drop_image : Os → Name → QueuedImage → UploadWorker → UploadWorker × Bool
drop_image os id img w = elim (find id w.cameras) [
  | none ↦ (w, false)
  | some c ↦ (
    update_camera id (λ k. record k { queue = (drop_queued_image os img k.queue).0 }) w,
    (drop_queued_image os img c.queue).1,
  )
]

abbrev pub clear_if : FilePath → UploadWorker × Bool → UploadWorker
clear_if path (w, true) = clear_file_read_failure path w
clear_if path (w, false) = w

-- `handleReadFailure` for a missing file
unfoldable pub handle_missing_file : Os → Name → QueuedImage → UploadWorker → UploadWorker
handle_missing_file os id img w =
    let path : FilePath = record { camera = id; file = img.filename } in
    (drop_image os id img (clear_file_read_failure path w)).0

abbrev pub drop_if : Bool → Os → Name → QueuedImage → FilePath → UploadWorker → UploadWorker
drop_if false os id img path w = w
drop_if true os id img path w = clear_if path (drop_image os id img w)

-- `handleReadFailure` for any other error
unfoldable pub handle_read_error :
    Os → Instant → Name → QueuedImage → Name → UploadWorker → UploadWorker
handle_read_error os now id img err w =
    let path : FilePath = record { camera = id; file = img.filename } in
    let count = read_failures_of path w.file_read_failures + 1 in
    let counted = record w {
      file_read_failures = (path, count) ∷ without_path path w.file_read_failures;
    } in
    let dropped = drop_if (leb max_file_read_failures count) os id img path counted in
    (record_failure now id err dropped).0

-- `uploadWithRetry`
unfoldable pub upload_with_retry :
    Os → Instant → ReadFile → Transfer → UploadTask → UploadWorker → UploadWorker × Bool
upload_with_retry os now (content size) t task w0 =
    transfer t now task.camera_id (record w0 { uploads_total = w0.uploads_total + 1 })
upload_with_retry os now no_file t task w0 = (
  handle_missing_file os task.camera_id task.image
      (record w0 { uploads_total = w0.uploads_total + 1 }),
  false,
)
upload_with_retry os now (unreadable err) t task w0 = (
  handle_read_error os now task.camera_id task.image err
      (record w0 { uploads_total = w0.uploads_total + 1 }),
  false,
)
