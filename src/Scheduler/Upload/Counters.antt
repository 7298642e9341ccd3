-- ===== src/Scheduler/Upload/Counters.antt =====
-- An upload counts as exactly one success or as a failure, by its result.
use aviationwx_bridge.Queue.Names.Table.{find}
use aviationwx_bridge.Prelude.{
  Bool, Bool-cases, Instant, Option-cases, arith, false, inl, inr, leb, none, refl, some, subst,
  sym, true, ◌+◌, ◌∷◌, ◌≡◌, ◌≤◌,
}
use aviationwx_bridge.Queue.Names.{Name, is_some}
use aviationwx_bridge.Queue.Disk.{Os}
use aviationwx_bridge.Queue.Removal.{QueuedImage}
use aviationwx_bridge.Scheduler.Upload.Failures.{
  clear_file_read_failure, handle_auth_failure, read_failures_of, record_failure, record_success,
  without_path,
}
use aviationwx_bridge.Scheduler.Upload.{FilePath, UploadTask, UploadWorker, max_file_read_failures}
use aviationwx_bridge.Scheduler.Upload.Transfer.{
  ReadFile, Transfer, answered, clear_if, content, count_retry, deadline, drop_if, drop_image,
  fail_upload, handle_missing_file, handle_read_error, is_auth_error, no_file, transfer, unreadable,
  upload_with_retry,
}

-- what the result of an upload says of the counters
abbrev pub IsCountedAs : Bool → UploadWorker → UploadWorker → Type 0
IsCountedAs true w r =
    (r.uploads_total ≡ w.uploads_total)
    × (r.uploads_success ≡ w.uploads_success + 1)
    × (r.uploads_failed ≡ w.uploads_failed)
IsCountedAs false w r =
    (r.uploads_total ≡ w.uploads_total)
    × (r.uploads_success ≡ w.uploads_success)
    × (w.uploads_failed ≤ r.uploads_failed)
    × (r.uploads_failed ≤ w.uploads_failed + 2)

fail_upload_counted :
    (now : Instant) (id err : Name) (w : UploadWorker)
    → ((fail_upload now id err w).1 ≡ false) × IsCountedAs false w (fail_upload now id err w).0
unfolding fail_upload record_failure handle_auth_failure
fail_upload_counted now id err w = elim (Bool-cases (is_some (find id w.cameras))) [
  | inr e ↦ rw e (refl, (refl, refl, omega arith, omega arith))
  | inl e ↦ elim (Bool-cases (is_auth_error err)) [
    | inl a ↦ rw (e, a) (refl, (refl, refl, omega arith, omega arith))
    | inr a ↦ rw (e, a) (refl, (refl, refl, omega arith, omega arith))
  ]
]

IsCountedAs-retry :
    (b : Bool) (w r : UploadWorker) → IsCountedAs b (count_retry w) r → IsCountedAs b w r
IsCountedAs-retry true w r h = h
IsCountedAs-retry false w r h = h

fail_upload_result :
    (now : Instant) (id err : Name) (w : UploadWorker)
    → IsCountedAs (fail_upload now id err w).1 w (fail_upload now id err w).0
fail_upload_result now id err w =
    let h = fail_upload_counted now id err w in
    subst (λ b. IsCountedAs b w (fail_upload now id err w).0) (sym h.0) h.1

transfer_result :
    (t : Transfer) (now : Instant) (id : Name) (w : UploadWorker)
    → IsCountedAs (transfer t now id w).1 w (transfer t now id w).0
unfolding transfer record_success record_failure
transfer_result (answered none second_answer) now id w = (refl, refl, refl)
transfer_result (answered (some err) none) now id w = elim (Bool-cases (is_auth_error err)) [
  | inl e ↦ rw e (fail_upload_result now id err w)
  | inr e ↦ rw e (refl, refl, refl)
]
transfer_result (answered (some err) (some err2)) now id w = elim (Bool-cases (is_auth_error err)) [
  | inl e ↦ rw e (fail_upload_result now id err w)
  | inr e ↦ rw e (
      IsCountedAs-retry (fail_upload now id err2 (count_retry w)).1 w
        (fail_upload now id err2 (count_retry w)).0
        (fail_upload_result now id err2 (count_retry w)))
]
transfer_result (deadline true) now id w = (refl, refl, omega arith, omega arith)
transfer_result (deadline false) now id w = (refl, refl, omega arith, omega arith)

-- a drop counts nothing
SameCounts : UploadWorker → UploadWorker → Type 0
SameCounts w r =
    (r.uploads_success ≡ w.uploads_success)
    × (r.uploads_failed ≡ w.uploads_failed)
    × (r.uploads_total ≡ w.uploads_total)

drop_image-SameCounts :
    (os : Os) (id : Name) (img : QueuedImage) (w : UploadWorker)
    → SameCounts w (drop_image os id img w).0
unfolding drop_image SameCounts
drop_image-SameCounts os id img w = elim (Option-cases (find id w.cameras)) [
  | inl e ↦ rw (e, drop_image) (refl, refl, refl)
  | inr (c, e) ↦ rw (e, drop_image) (refl, refl, refl)
]

clear_if-SameCounts :
    (path : FilePath) (w : UploadWorker) (r : UploadWorker × Bool)
    → SameCounts w r.0
    → SameCounts w (clear_if path r)
unfolding clear_file_read_failure SameCounts
clear_if-SameCounts path w (r, true) h = h
clear_if-SameCounts path w (r, false) h = h

drop_if-SameCounts :
    (limit : Bool) (os : Os) (id : Name) (img : QueuedImage) (path : FilePath) (w : UploadWorker)
    → SameCounts w (drop_if limit os id img path w)
drop_if-SameCounts false os id img path w = unfold SameCounts in (refl, refl, refl)
drop_if-SameCounts true os id img path w =
    clear_if-SameCounts path w (drop_image os id img w) (drop_image-SameCounts os id img w)

dropped-IsCountedAs : (w r : UploadWorker) → SameCounts w r → IsCountedAs false w r
unfolding SameCounts
dropped-IsCountedAs w r h = (h.2, h.0, omega (arith, h.1), omega (arith, h.1))

failed-IsCountedAs :
    (now : Instant) (id err : Name) (w r : UploadWorker)
    → SameCounts w r
    → IsCountedAs false w (record_failure now id err r).0
unfolding SameCounts record_failure
failed-IsCountedAs now id err w r h = (h.2, h.0, omega (arith, h.1), omega (arith, h.1))

handle_missing_file_counted :
    (os : Os) (id : Name) (img : QueuedImage) (w : UploadWorker)
    → IsCountedAs false w (handle_missing_file os id img w)
unfolding handle_missing_file clear_file_read_failure SameCounts
handle_missing_file_counted os id img w =
    let path : FilePath = record { camera = id; file = img.filename } in
    dropped-IsCountedAs w (handle_missing_file os id img w)
      (drop_image-SameCounts os id img (clear_file_read_failure path w))

handle_read_error_counted :
    (os : Os) (now : Instant) (id : Name) (img : QueuedImage) (err : Name) (w : UploadWorker)
    → IsCountedAs false w (handle_read_error os now id img err w)
unfolding handle_read_error SameCounts
handle_read_error_counted os now id img err w =
    let path : FilePath = record { camera = id; file = img.filename } in
    let count = read_failures_of path w.file_read_failures + 1 in
    let counted : UploadWorker = record w {
      file_read_failures = (path, count) ∷ without_path path w.file_read_failures;
    } in
    let limit = leb max_file_read_failures count in
    failed-IsCountedAs now id err w (drop_if limit os id img path counted)
      (drop_if-SameCounts limit os id img path counted)

-- Every upload adds one to the uploads in all. One that succeeds adds exactly one to the successes and
-- none to the failures; any other adds none to the successes and at most two to the failures. So
-- it is whatever the file, the client, the deadline and the disk do.
pub upload_with_retry_counts :
    (os : Os) (now : Instant) (f : ReadFile) (t : Transfer) (task : UploadTask) (w : UploadWorker)
    → let r = upload_with_retry os now f t task w in
      IsCountedAs r.1 (record w { uploads_total = w.uploads_total + 1 }) r.0
unfolding upload_with_retry
upload_with_retry_counts os now (content size) t task w =
    transfer_result t now task.camera_id (record w { uploads_total = w.uploads_total + 1 })
upload_with_retry_counts os now no_file t task w =
    handle_missing_file_counted os task.camera_id task.image
      (record w { uploads_total = w.uploads_total + 1 })
upload_with_retry_counts os now (unreadable err) t task w =
    handle_read_error_counted os now task.camera_id task.image err
      (record w { uploads_total = w.uploads_total + 1 })
