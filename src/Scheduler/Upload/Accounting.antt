-- ===== src/Scheduler/Upload/Accounting.antt =====
-- What an upload counts, how a failed login holds a camera off, and the numbers of one upload.
use aviationwx_bridge.Queue.Names.Table.{find}
use aviationwx_bridge.Prelude.{
  Bool-cases, Duration, Instant, [], ap, arith, false, if◌then◌else◌, inl, inr, lt→ltb, minute,
  refl, second, some, true, ℕ, ◌*◌, ◌++◌, ◌+◌, ◌/◌, ◌<◌, ◌^◌, ◌∷◌, ◌≡◌, ◌≤◌, ◌⊎◌,
}
use aviationwx_bridge.Queue.Names.{
  Name, file_name, name_eq, parse_timestamp, trim_suffix, unix_milli, unix_milli_time,
}
use aviationwx_bridge.Queue.Names.RoundTrip.{parse_int-decimal, trim_suffix-file_name}
use aviationwx_bridge.Queue.Disk.{Os}
use aviationwx_bridge.Scheduler.Upload.Failures.{
  handle_auth_failure, note_auth_failure, note_failure, record_failure,
}
use aviationwx_bridge.Scheduler.Upload.{Camera, Cameras, FailureState, UploadWorker, change_camera}
use aviationwx_bridge.Scheduler.Upload.Transfer.{
  build_remote_path, fail_upload, is_auth_error, max_upload_time, slash,
}
use aviationwx_bridge.Scheduler.Upload.Schedule.{schedule_camera}

find-change :
    (id : Name) (f : Camera → Camera) (c : Camera) (cs : Cameras)
    → find id cs ≡ some c
    → find id (change_camera id f cs) ≡ some (f c)
find-change id f c [] h = cc
find-change id f c (p ∷ cs) h = elim (Bool-cases (name_eq p.0 id)) [
  | inl e ↦
      let found : some p.1 ≡ some c = rw e at h in
      let same : p.1 ≡ c = cc in rw (e, e) (ap (λ x. some (f x)) same)
  | inr e ↦ rw (e, e) (find-change id f c cs (rw e at h))
]

-- the failures of a camera after a failed login
abbrev refused : Instant → Duration → FailureState → FailureState
refused now backoff s = note_auth_failure now backoff (note_failure now s)

found_refused :
    (now : Instant) (id err : Name) (w : UploadWorker) (c : Camera)
    → find id w.cameras ≡ some c
    → is_auth_error err ≡ true
    → (find id (fail_upload now id err w).0.cameras
        ≡ some (record c { failures = refused now w.auth_backoff c.failures }))
      × ((fail_upload now id err w).0.uploads_failed ≡ w.uploads_failed + 2)
      × ((fail_upload now id err w).0.auth_failures ≡ w.auth_failures + 1)
unfolding fail_upload record_failure handle_auth_failure
found_refused now id err w c h a =
    let f = λ (k : Camera). record k { failures = note_failure now k.failures } in
    let g =
      λ (k : Camera). record k { failures = note_auth_failure now w.auth_backoff k.failures } in
    rw (h, a)
      (
        find-change id g (f c) (change_camera id f w.cameras) (find-change id f c w.cameras h),
        omega arith,
        refl,
      )

-- A refused login of a known camera counts one authentication failure, two failed uploads and two
-- consecutive failures. In the state that it leaves no image of the camera is scheduled before the
-- authentication backoff has passed; the failure of another upload of the camera may change that state.
pub fail_upload_holds_off :
    (os : Os) (now later : Instant) (id err : Name) (w : UploadWorker) (c : Camera)
    → find id w.cameras ≡ some c
    → is_auth_error err ≡ true
    → let r = (fail_upload now id err w).0 in
      (r.auth_failures ≡ w.auth_failures + 1)
      × (r.uploads_failed ≡ w.uploads_failed + 2)
      × ((d : Camera) × (find id r.cameras ≡ some d)
          × (d.failures.consecutive_failures ≡ c.failures.consecutive_failures + 2))
      × (later < now + w.auth_backoff → schedule_camera os later id r ≡ (r, false))
unfolding schedule_camera note_auth_failure note_failure
fail_upload_holds_off os now later id err w c h a =
    let facts = found_refused now id err w c h a in
    let d = record c { failures = refused now w.auth_backoff c.failures } in
    (
      facts.2,
      facts.1,
      (d, facts.0, omega arith),
      λ soon. rw (facts.0, schedule_camera, lt→ltb later (now + w.auth_backoff) soon) refl,
    )

-- The deadline of an upload lies between 3 and 15 minutes and, below that cap, gives every upload 90
-- seconds and the time of its bytes at 5 KiB a second.
pub max_upload_time_bounds :
    (size : ℕ)
    → (3 * minute ≤ max_upload_time size)
      × (max_upload_time size ≤ 15 * minute)
      × ((max_upload_time size ≡ 15 * minute)
          ⊎ (90 * second + size / (5 * 1024) * second ≤ max_upload_time size))
unfolding max_upload_time
max_upload_time_bounds size = ground arith

-- The remote name of a queued image is its own file name, in the configured directory, or in one named
-- after the camera if none is configured: a name that was made from milliseconds in the range of an
-- int64 is parsed and printed back unchanged.
pub build_remote_path_lem :
    (base id : Name) (ms : ℕ)
    → ms < 2 ^ 63
    → build_remote_path base id (parse_timestamp (file_name ms))
      ≡ trim_suffix slash (if name_eq base [] then id else base) ++ slash ++ file_name ms
unfolding build_remote_path parse_timestamp
build_remote_path_lem base id ms h =
    let back : unix_milli (parse_timestamp (file_name ms)) ≡ ms =
      rw (trim_suffix-file_name ms, parse_int-decimal ms h, parse_timestamp)
        (unfold unix_milli unix_milli_time in omega arith) in
    ap (λ k. trim_suffix slash (if name_eq base [] then id else base) ++ slash ++ file_name k) back
