-- ===== src/Queue/Outcome.antt =====
-- The results of `Enqueue`, success and errors.
use aviationwx_bridge.Prelude.{
  Bool-cases, Instant, Option, after, ap, arith, false, inl, inr, ltb, ltb→lt, none, refl, second,
  some, true, ℕ, ◌*◌, ◌+◌, ◌<◌, ◌∙◌, ◌∷◌, ◌≡◌, ◌≤◌,
}
use aviationwx_bridge.Queue.Names.{file_name, unix_milli}
use aviationwx_bridge.Queue.Disk.{Os, lookup}
use aviationwx_bridge.Queue.State.{Queue, percent, update_health_level}
use aviationwx_bridge.Queue.Removal.{emergency_thin}
use aviationwx_bridge.Queue.Tracking.Removing.{update_health_level_same}
use aviationwx_bridge.Queue.Tracking.Space.{
  emergency_thin-Shrinks, emergency_thin_for_space-Tracks, update_health_level-queued,
}
use aviationwx_bridge.Queue.Tracking.{Tracks}
use aviationwx_bridge.Queue.Names.RoundTrip.{name_eq_refl}
use aviationwx_bridge.Queue.Intake.{
  EnqueueError, WriteEnv, WriteOutcome, after_write, capture_paused_error, count_enqueued,
  emergency_thin_for_space, enqueue, finalize, first_free_time, from_future, has_space_for_image,
  image_expired, invalid_image, no_space, queue_full, rename_error, retry_write, store_image,
  write_error, write_failed, write_image, written,
}

-- an image of the size stands in the directory under the milliseconds of some time, its size
abbrev pub IsStored : ℕ → Queue → Type 0
IsStored size q =
    (ms : ℕ) × (lookup (file_name ms) q.dir
      ≡ some (record { name = file_name ms; size = size; is_dir = false; has_info = true }))

-- what each result of an enqueue means for the queue before it and the queue after it
abbrev pub Meaning : ℕ → Queue → Queue → Option EnqueueError → Type 0
Meaning size q r none =
    IsStored size r
    × (r.images_queued ≡ q.images_queued + 1)
    × (q.capture_paused ≡ false)
    × (100 ≤ size)
Meaning size q r (some capture_paused_error) = (r ≡ q) × (q.capture_paused ≡ true)
Meaning size q r (some invalid_image) = (r ≡ q) × (size < 100)
Meaning size q r (some from_future) = r ≡ q
Meaning size q r (some image_expired) = r ≡ q
Meaning size q r (some queue_full) =
    (r.images_queued ≡ q.images_queued) × (r.capture_paused ≡ true) × (r.pause_signal ≡ true)
Meaning size q r (some write_error) = r.images_queued ≡ q.images_queued
Meaning size q r (some rename_error) = r.images_queued ≡ q.images_queued

-- after the checks of the arguments
abbrev Written : ℕ → Queue → Queue × Option EnqueueError → Type 0
Written size q r = (q.capture_paused ≡ false) → (100 ≤ size) → Meaning size q r.0 r.1

stored-Meaning :
    (t : Instant) (ms size : ℕ) (q r : Queue)
    → r.images_queued ≡ q.images_queued
    → Written size q (
      update_health_level (
          count_enqueued t size (record r {
            dir =
                record { name = file_name ms; size = size; is_dir = false; has_info = true }
                ∷ r.dir;
          })),
      none,
    )
unfolding count_enqueued
stored-Meaning t ms size q r s p n =
    let r1 = count_enqueued t size (record r {
      dir = record { name = file_name ms; size = size; is_dir = false; has_info = true } ∷ r.dir;
    }) in
    let dir_same = (update_health_level_same r1).0 in
    let queued_same = update_health_level-queued r1 in
    (
      (ms, ap (λ d. lookup (file_name ms) d) dir_same ∙ rw (name_eq_refl (file_name ms)) refl),
      queued_same ∙ ap (λ k. k + 1) s,
      p,
      n,
    )

finalize-Written :
    (t : Instant) (env : WriteEnv) (ms size : ℕ) (q r : Queue)
    → r.images_queued ≡ q.images_queued
    → Written size q (after_write t size (finalize env (file_name ms) size r))
unfolding after_write finalize
finalize-Written t env ms size q r s = elim (Bool-cases env.rename) [
  | inr e ↦ rw (e, finalize) (λ p n. s)
  | inl e ↦ rw (e, finalize) (stored-Meaning t ms size q r s)
]

retry_write-Written :
    (t : Instant) (o : WriteOutcome) (env : WriteEnv) (ms size : ℕ) (q r : Queue)
    → r.images_queued ≡ q.images_queued
    → Written size q (after_write t size (retry_write o env (file_name ms) size r))
unfolding retry_write after_write
retry_write-Written t written env ms size q r s = finalize-Written t env ms size q r s
retry_write-Written t no_space env ms size q r s = λ p n. (s, refl, refl)
retry_write-Written t write_failed env ms size q r s = λ p n. s

write_image-Written :
    (t : Instant) (o : WriteOutcome) (os : Os) (env : WriteEnv) (ms size : ℕ) (q r : Queue)
    → r.images_queued ≡ q.images_queued
    → Written size q (after_write t size (write_image o os env (file_name ms) size r))
unfolding write_image after_write
write_image-Written t written os env ms size q r s = finalize-Written t env ms size q r s
write_image-Written t no_space os env ms size q r s =
    retry_write-Written t env.second_write env ms size q (emergency_thin os (percent 30) r).0
      ((emergency_thin-Shrinks os (percent 30) r).2 ∙ s)
write_image-Written t write_failed os env ms size q r s = λ p n. s

store_image-Written :
    (os : Os) (env : WriteEnv) (size : ℕ) (t : Instant) (q : Queue)
    → Tracks q
    → Written size q (store_image os env size t q)
unfolding store_image
store_image-Written os env size t q k =
    let store = λ (r : Queue) (s : r.images_queued ≡ q.images_queued).
      write_image-Written (first_free_time r.dir t) env.first_write os env
        (unix_milli (first_free_time r.dir t)) size q r s in
    elim (Bool-cases (has_space_for_image os size q)) [
      | inl e ↦ rw e (store q refl)
      | inr e ↦ rw e (
          store (emergency_thin_for_space os size q)
            (emergency_thin_for_space-Tracks os size q k).1.2)
    ]

-- The result of an enqueue tells what happened, whatever the disk answers. Without an error the image
-- stands in the directory under a millisecond name, one more image counts as queued, capture was not
-- paused and the image has at least 100 bytes. An error of the checks of pause, size and time leaves
-- the queue as it was; an error of the disk counts no image as queued, and a full disk pauses capture
-- and signals it. The counters of the queue agree with its directory before.
pub enqueue_lem :
    (os : Os) (env : WriteEnv) (size : ℕ) (t now : Instant) (q : Queue)
    → Tracks q
    → Meaning size q (enqueue os env size t now q).0 (enqueue os env size t now q).1
unfolding enqueue
enqueue_lem os env size t now q k = elim (Bool-cases q.capture_paused) [
  | inl e ↦ simp e (refl, refl)
  | inr e ↦ elim (Bool-cases (ltb size 100)) [
    | inl f ↦ simp (e, f) (refl, ltb→lt size 100 f)
    | inr f ↦
        let stored = store_image-Written os env size t q k e (ground arith) in
        elim (Bool-cases (after t (now + 5 * second))) [
          | inl g ↦ simp (e, f, g) refl
          | inr g ↦ elim (Bool-cases (ltb (t + q.config.max_age_seconds * second) now)) [
            | inl h ↦ simp (e, f, g, h) refl
            | inr h ↦ simp (e, f, g, h) stored
          ]
        ]
  ]
]
