-- ===== src/Queue/Tracking/Storing.antt =====
-- An image that is stored keeps the counters in agreement with the directory: the choice of a name,
-- the write and its retry.
use aviationwx_bridge.Prelude.{
  Bool, Bool-cases, Instant, Option, Option-cases, [], after, arith, false, if◌then◌else◌, inl, inr,
  length, length-append, ltb, none, refl, second, true, ℕ, ◌*◌, ◌++◌, ◌+◌, ◌<◌, ◌^◌, ◌∷◌, ◌≡◌, ◌≤◌,
}
use aviationwx_bridge.Queue.Names.{
  Name, cut_suffix, decimal, file_name, has_suffix, jpg, tmp, unix_epoch, unix_milli,
}
use aviationwx_bridge.Queue.Names.RoundTrip.{
  cut_suffix-file_name, name_eq_longer, parse_int-decimal, trim_suffix-file_name,
}
use aviationwx_bridge.Queue.Disk.{Dir, Entry, Os, exists, is_image, lookup}
use aviationwx_bridge.Queue.State.{Queue, percent}
use aviationwx_bridge.Queue.Removal.{emergency_thin}
use aviationwx_bridge.Queue.Intake.{
  EnqueueError, WriteEnv, WriteOutcome, after_write, count_enqueued, emergency_thin_for_space,
  enqueue, finalize, first_free_time, has_space_for_image, no_space, retry_write, store_image,
  write_failed, write_image, written,
}
use aviationwx_bridge.Queue.Tracking.{Tracks}
use aviationwx_bridge.Queue.Tracking.FreeName.{first_free_time_free}
use aviationwx_bridge.Queue.Tracking.Space.{
  Shrinks, Shrinks-refl, emergency_thin-Shrinks, emergency_thin_for_space-Tracks,
}
use aviationwx_bridge.Queue.Tracking.Removing.{Counts-subst, update_health_level_same}
use aviationwx_bridge.Queue.Tracking.Operations.{emergency_thin-Tracks}

abbrev entry : ℕ → ℕ → Entry
entry ms size = record { name = file_name ms; size = size; is_dir = false; has_info = true }

-- a name that ends in `.jpg` does not end in `.tmp`
cut_suffix-tmp : (s : Name) → cut_suffix tmp (s ++ jpg) ≡ none
unfolding cut_suffix
cut_suffix-tmp [] = refl
cut_suffix-tmp (c ∷ s) =
    rw (name_eq_longer (c ∷ (s ++ jpg)) tmp (omega (arith, length-append s jpg)), cut_suffix-tmp s)

pub entry-is_image : (ms size : ℕ) → ms < 2 ^ 63 → is_image (entry ms size) ≡ true
unfolding is_image has_suffix
entry-is_image ms size h =
    let not_tmp : cut_suffix tmp (file_name ms) ≡ none =
      unfold file_name in cut_suffix-tmp (decimal ms) in
    rw (cut_suffix-file_name ms, not_tmp, trim_suffix-file_name ms, parse_int-decimal ms h)

pub exists-absent : (n : Name) (dir : Dir) → exists n dir ≡ false → lookup n dir ≡ none
exists-absent n dir h = elim (Option-cases (lookup n dir)) [
  | inl e ↦ e
  | inr (f, e) ↦ cc (rw e at h)
]

finalize-Tracks :
    (t : Instant) (env : WriteEnv) (ms size : ℕ) (q : Queue)
    → lookup (file_name ms) q.dir ≡ none
    → ms < 2 ^ 63
    → Tracks q
    → Tracks (after_write t size (finalize env (file_name ms) size q)).0
unfolding after_write finalize count_enqueued
finalize-Tracks t env ms size q free small k = elim (Bool-cases env.rename) [
  | inr e ↦ rw (e, finalize) k
  | inl e ↦
      let image = entry-is_image ms size small in
      let h = update_health_level_same (
        count_enqueued t size (record q {
          dir =
              record { name = file_name ms; size = size; is_dir = false; has_info = true } ∷ q.dir;
        })) in
      rw (e, finalize)
        (Counts-subst h.0 h.1 h.2 (record {
          counted = rw image (omega (arith, k.counted));
          sized = rw image (omega (arith, k.sized));
          distinct = (free, k.distinct);
        }))
]

retry_write-Tracks :
    (t : Instant) (o : WriteOutcome) (env : WriteEnv) (ms size : ℕ) (q : Queue)
    → lookup (file_name ms) q.dir ≡ none
    → ms < 2 ^ 63
    → Tracks q
    → Tracks (after_write t size (retry_write o env (file_name ms) size q)).0
unfolding retry_write after_write
retry_write-Tracks t written env ms size q free small k =
    finalize-Tracks t env ms size q free small k
retry_write-Tracks t no_space env ms size q free small k = k
retry_write-Tracks t write_failed env ms size q free small k = k

write_image-Tracks :
    (t : Instant) (o : WriteOutcome) (os : Os) (env : WriteEnv) (ms size : ℕ) (q : Queue)
    → lookup (file_name ms) q.dir ≡ none
    → ms < 2 ^ 63
    → Tracks q
    → Tracks (after_write t size (write_image o os env (file_name ms) size q)).0
unfolding write_image after_write
write_image-Tracks t written os env ms size q free small k =
    finalize-Tracks t env ms size q free small k
write_image-Tracks t no_space os env ms size q free small k =
    retry_write-Tracks t env.second_write env ms size (emergency_thin os (percent 30) q).0
      ((emergency_thin-Shrinks os (percent 30) q).0 (file_name ms) free) small
      (emergency_thin-Tracks os (percent 30) q k)
write_image-Tracks t write_failed os env ms size q free small k = k

store_image-Tracks :
    (os : Os) (env : WriteEnv) (size : ℕ) (t : Instant) (q : Queue)
    → unix_epoch ≤ t
    → unix_milli t + length q.dir < 2 ^ 63
    → Tracks q
    → Tracks (store_image os env size t q).0
unfolding store_image
store_image-Tracks os env size t q h small k =
    let store = λ (q1 : Queue) (r : Tracks q1 × Shrinks q q1).
      let free = first_free_time_free q1.dir t h in
      write_image-Tracks (first_free_time q1.dir t) env.first_write os env
        (unix_milli (first_free_time q1.dir t)) size q1 (exists-absent _ q1.dir free.0)
        (omega (arith, free.1, r.1.1)) r.0 in
    elim (Bool-cases (has_space_for_image os size q)) [
      | inl e ↦ rw e (store q (k, Shrinks-refl q))
      | inr e ↦
          rw e (
            store (emergency_thin_for_space os size q)
              (emergency_thin_for_space-Tracks os size q k))
    ]

branch-Tracks :
    (c : Bool) (x y : Queue × Option EnqueueError)
    → Tracks x.0
    → Tracks y.0
    → Tracks (if c then x else y).0
branch-Tracks true x y h k = h
branch-Tracks false x y h k = k

-- `Enqueue` of a time since 1970, whose milliseconds and the number of files together fit in an
-- int64, keeps the counters in agreement with the directory on every branch, whatever the disk
-- answers.
pub enqueue-Tracks :
    (os : Os) (env : WriteEnv) (size : ℕ) (t now : Instant) (q : Queue)
    → unix_epoch ≤ t
    → unix_milli t + length q.dir < 2 ^ 63
    → Tracks q
    → Tracks (enqueue os env size t now q).0
unfolding enqueue
enqueue-Tracks os env size t now q h small k = branch-Tracks q.capture_paused _ _ k (
    branch-Tracks (ltb size 100) _ _ k (
      branch-Tracks (after t (now + 5 * second)) _ _ k (
        branch-Tracks (ltb (t + q.config.max_age_seconds * second) now) _ _ k
          (store_image-Tracks os env size t q h small k))))
