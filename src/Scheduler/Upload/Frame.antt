-- ===== src/Scheduler/Upload/Frame.antt =====
-- What an upload leaves alone: the channel, the marks of the images in flight and the pool.
use aviationwx_bridge.Queue.Names.Table.{find}
use aviationwx_bridge.Prelude.{
  Bool, Bool-cases, Instant, Option-cases, false, inl, inr, leb, none, refl, some, true, ◌+◌, ◌∙◌,
  ◌∷◌, ◌≡◌,
}
use aviationwx_bridge.Queue.Names.{Name}
use aviationwx_bridge.Queue.Disk.{Os}
use aviationwx_bridge.Queue.Removal.{QueuedImage}
use aviationwx_bridge.Scheduler.Upload.Failures.{
  clear_file_read_failure, handle_auth_failure, read_failures_of, record_failure, record_success,
  without_path,
}
use aviationwx_bridge.Scheduler.Upload.{
  FilePath, UploadTask, UploadWorker, max_file_read_failures, path_of,
}
use aviationwx_bridge.Scheduler.Upload.Transfer.{
  ReadFile, Transfer, after_failure, answered, clear_if, content, count_retry, deadline, drop_if,
  drop_image, fail_upload, handle_missing_file, handle_read_error, is_auth_error, no_file,
  timeout_text, transfer, unreadable, upload_with_retry,
}
use aviationwx_bridge.Scheduler.Upload.Schedule.{conclude}

abbrev pub SamePool : UploadWorker → UploadWorker → Type 0
SamePool w r =
    (r.in_flight ≡ w.in_flight)
    × (r.work_chan ≡ w.work_chan)
    × (r.active_uploads ≡ w.active_uploads)
    × (r.worker_count ≡ w.worker_count)
    × (r.chan_capacity ≡ w.chan_capacity)

SamePool-refl : (w : UploadWorker) → SamePool w w
SamePool-refl w = (refl, refl, refl, refl, refl)

SamePool-trans : (a b c : UploadWorker) → SamePool a b → SamePool b c → SamePool a c
SamePool-trans a b c f g = (g.0 ∙ f.0, g.1 ∙ f.1, g.2 ∙ f.2, g.3 ∙ f.3, g.4 ∙ f.4)

record_success_same : (now : Instant) (w : UploadWorker) → SamePool w (record_success now w)
unfolding record_success
record_success_same now w = SamePool-refl w

record_failure_same :
    (now : Instant) (id reason : Name) (w : UploadWorker)
    → SamePool w (record_failure now id reason w).0
unfolding record_failure
record_failure_same now id reason w = SamePool-refl w

after_failure_same :
    (now : Instant) (id err : Name) (r : UploadWorker × Bool)
    → SamePool r.0 (after_failure now id err r).0
unfolding handle_auth_failure
after_failure_same now id err (w, false) = SamePool-refl w
after_failure_same now id err (w, true) = elim (Bool-cases (is_auth_error err)) [
  | inl e ↦ rw e (SamePool-refl w)
  | inr e ↦ rw e (SamePool-refl w)
]

fail_upload_same :
    (now : Instant) (id err : Name) (w : UploadWorker) → SamePool w (fail_upload now id err w).0
unfolding fail_upload
fail_upload_same now id err w =
    SamePool-trans w (record_failure now id err w).0
      (after_failure now id err (record_failure now id err w)).0 (record_failure_same now id err w)
      (after_failure_same now id err (record_failure now id err w))

transfer_same :
    (t : Transfer) (now : Instant) (id : Name) (w : UploadWorker)
    → SamePool w (transfer t now id w).0
unfolding transfer
transfer_same (answered none second_answer) now id w = record_success_same now w
transfer_same (answered (some err) none) now id w = elim (Bool-cases (is_auth_error err)) [
  | inl e ↦ rw e (fail_upload_same now id err w)
  | inr e ↦ rw e (record_success_same now (count_retry w))
]
transfer_same (answered (some err) (some err2)) now id w = elim (Bool-cases (is_auth_error err)) [
  | inl e ↦ rw e (fail_upload_same now id err w)
  | inr e ↦ rw e (fail_upload_same now id err2 (count_retry w))
]
transfer_same (deadline true) now id w = record_failure_same now id timeout_text (count_retry w)
transfer_same (deadline false) now id w = record_failure_same now id timeout_text w

drop_image_same :
    (os : Os) (id : Name) (img : QueuedImage) (w : UploadWorker)
    → SamePool w (drop_image os id img w).0
unfolding drop_image
drop_image_same os id img w = elim (Option-cases (find id w.cameras)) [
  | inl e ↦ rw (e, drop_image) (SamePool-refl w)
  | inr (c, e) ↦ rw (e, drop_image) (SamePool-refl w)
]

clear_if_same : (path : FilePath) (r : UploadWorker × Bool) → SamePool r.0 (clear_if path r)
unfolding clear_file_read_failure
clear_if_same path (w, true) = SamePool-refl w
clear_if_same path (w, false) = SamePool-refl w

drop_if_same :
    (limit : Bool) (os : Os) (id : Name) (img : QueuedImage) (path : FilePath) (w : UploadWorker)
    → SamePool w (drop_if limit os id img path w)
drop_if_same false os id img path w = SamePool-refl w
drop_if_same true os id img path w =
    let gone = drop_image os id img w in
    SamePool-trans w gone.0 (clear_if path gone) (drop_image_same os id img w)
      (clear_if_same path gone)

handle_read_error_same :
    (os : Os) (now : Instant) (id : Name) (img : QueuedImage) (err : Name) (w : UploadWorker)
    → SamePool w (handle_read_error os now id img err w)
unfolding handle_read_error
handle_read_error_same os now id img err w =
    let path : FilePath = record { camera = id; file = img.filename } in
    let count = read_failures_of path w.file_read_failures + 1 in
    let counted : UploadWorker = record w {
      file_read_failures = (path, count) ∷ without_path path w.file_read_failures;
    } in
    let limit = leb max_file_read_failures count in
    let dropped = drop_if limit os id img path counted in
    SamePool-trans w dropped (record_failure now id err dropped).0
      (drop_if_same limit os id img path counted) (record_failure_same now id err dropped)

upload_with_retry_same :
    (os : Os) (now : Instant) (f : ReadFile) (t : Transfer) (task : UploadTask) (w : UploadWorker)
    → SamePool w (upload_with_retry os now f t task w).0
unfolding upload_with_retry handle_missing_file clear_file_read_failure
upload_with_retry_same os now (content size) t task w =
    transfer_same t now task.camera_id (record w { uploads_total = w.uploads_total + 1 })
upload_with_retry_same os now no_file t task w =
    drop_image_same os task.camera_id task.image
      (clear_file_read_failure (path_of task) (record w { uploads_total = w.uploads_total + 1 }))
upload_with_retry_same os now (unreadable err) t task w =
    handle_read_error_same os now task.camera_id task.image err
      (record w { uploads_total = w.uploads_total + 1 })

conclude_same :
    (os : Os) (task : UploadTask) (r : UploadWorker × Bool) → SamePool r.0 (conclude os task r)
unfolding clear_file_read_failure
conclude_same os task (w, false) = SamePool-refl w
conclude_same os task (w, true) = SamePool-refl w

-- An upload and its conclusion leave the pool, the channel and the marks as they are.
pub uploaded_same :
    (os : Os) (now : Instant) (f : ReadFile) (t : Transfer) (task : UploadTask) (w : UploadWorker)
    → SamePool w (conclude os task (upload_with_retry os now f t task w))
uploaded_same os now f t task w =
    SamePool-trans w (upload_with_retry os now f t task w).0
      (conclude os task (upload_with_retry os now f t task w))
      (upload_with_retry_same os now f t task w)
      (conclude_same os task (upload_with_retry os now f t task w))
