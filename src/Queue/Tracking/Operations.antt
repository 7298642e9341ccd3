-- ===== src/Queue/Tracking/Operations.antt =====
-- Each removing operation keeps the counters in agreement with the directory.
use aviationwx_bridge.Prelude.{
  All, All-append, All-drop, All-take, Bool, Bool-cases, Duration, Instant, List, Option-cases, [],
  arith, before, false, if◌then◌else◌, inl, inr, leb, length, ltb, refl, second, suc, take, true,
  zero, ℕ, ◌*◌, ◌+◌, ◌-◌, ◌==◌, ◌∷◌, ◌≡◌,
}
use aviationwx_bridge.Queue.Names.{parse_timestamp}
use aviationwx_bridge.Queue.Disk.{Dir, Entry, Os, images, list_files_sorted, remove}
use aviationwx_bridge.Queue.Disk.Listing.{sort_by_name_facts}
use aviationwx_bridge.Queue.State.{Queue, Ratio}
use aviationwx_bridge.Queue.Removal.{
  QueuedImage, by_age, by_thinning, drop_queued_image, emergency_thin, expire_loop,
  expire_old_images, keep_count, mark_uploaded, remove_all, remove_counted, resync_counts_from_disk,
}
use aviationwx_bridge.Queue.Thinning.{
  Bounds, candidates, nth, pick, protect, remove_indices, target_count, thin_queue, to_remove_count,
  victims,
}
use aviationwx_bridge.Queue.Tracking.{Tracks}
use aviationwx_bridge.Queue.Tracking.Removing.{
  Counts-subst, IsListed, Removed-cases, list_files_sorted-IsListed, refresh-Tracks, remove-Counts,
  remove_all-Tracks, remove_counted-IsListed, remove_counted-Tracks, settle-Tracks,
}

pub emergency_thin-Tracks :
    (os : Os) (keep : Ratio) (q : Queue) → Tracks q → Tracks (emergency_thin os keep q).0
unfolding emergency_thin
emergency_thin-Tracks os keep q t = elim (Option-cases (list_files_sorted os q.dir)) [
  | inl e ↦ rw (e, emergency_thin) t
  | inr (files, e) ↦
      let n = length files in
      let gone = take (n - keep_count keep n) files in
      let listed = list_files_sorted-IsListed os q.dir files t.distinct e in
      let thinned = settle-Tracks os (remove_all os by_thinning gone q) (
        remove_all-Tracks os by_thinning gone q
          (All-take (IsListed q.dir) (n - keep_count keep n) files listed) t) in
      rw (e, emergency_thin)
        (elim (Bool-cases (n == 0)) [
          | inl z ↦ rw z t
          | inr z ↦ elim (Bool-cases (leb n (keep_count keep n))) [
            | inl k ↦ rw (z, k) t
            | inr k ↦ rw (z, k) thinned
          ]
        ])
]

expire_loop-Tracks :
    (os : Os) (now : Instant) (max_age : Duration) (files : List Entry) (q : Queue)
    → All (IsListed q.dir) files
    → Tracks q
    → Tracks (expire_loop os now max_age files q).0
unfolding expire_loop
expire_loop-Tracks os now max_age [] q l t = t
expire_loop-Tracks os now max_age (f ∷ files) q l t =
    elim (Bool-cases (before (parse_timestamp f.name + max_age) now)) [
      | inl e ↦ rw e (
          expire_loop-Tracks os now max_age files (remove_counted os by_age f q).0
            (remove_counted-IsListed os by_age f q files l.1)
            (remove_counted-Tracks os by_age f q l.0 t))
      | inr e ↦ rw e t
    ]

pub expire_old_images-Tracks :
    (os : Os) (now : Instant) (q : Queue) → Tracks q → Tracks (expire_old_images os now q).0
unfolding expire_old_images
expire_old_images-Tracks os now q t = elim (Option-cases (list_files_sorted os q.dir)) [
  | inl e ↦ rw (e, expire_old_images) t
  | inr (files, e) ↦
      rw (e, expire_old_images)
        (settle-Tracks os (expire_loop os now (q.config.max_age_seconds * second) files q) (
          expire_loop-Tracks os now (q.config.max_age_seconds * second) files q
            (list_files_sorted-IsListed os q.dir files t.distinct e) t))
]

module _ (P : Entry → Type 0) where
  nth-All : (i : ℕ) (xs : List Entry) → All P xs → All P (nth i xs)
  nth-All zero [] h = tt
  nth-All zero (x ∷ xs) h = (h.0, tt)
  nth-All (suc i) [] h = tt
  nth-All (suc i) (x ∷ xs) h = nth-All i xs h.1

  pick-All : (is : List ℕ) (xs : List Entry) → All P xs → All P (pick is xs)
  pick-All [] xs h = tt
  pick-All (i ∷ is) xs h = All-append P (nth i xs) (pick is xs) (nth-All i xs h) (pick-All is xs h)

  pub candidates-All : (b : Bounds) (files : List Entry) → All P files → All P (candidates b files)
  unfolding candidates
  candidates-All b files h =
      All-drop P b.oldest (take (length files - b.newest) files)
        (All-take P (length files - b.newest) files h)

  Guarded-All :
      (a b c d : Bool) (xs : List Entry)
      → All P xs
      → All P (if a then [] else if b then [] else if c then [] else if d then [] else xs)
  Guarded-All true b c d xs h = tt
  Guarded-All false true c d xs h = tt
  Guarded-All false false true d xs h = tt
  Guarded-All false false false true xs h = tt
  Guarded-All false false false false xs h = h

  pub victims-All :
      (stride : ℕ → ℕ → ℕ → ℕ) (q : Queue) (files : List Entry)
      → All P (candidates (protect q.config (length files)) files)
      → All P (victims stride q files)
  unfolding victims
  victims-All stride q files h =
      elim (Option-cases (target_count q.health_level q.config.max_files)) [
        | inl e ↦ rw (e, victims) tt
        | inr (target, e) ↦
            let b = protect q.config (length files) in
            let middle = candidates b files in
            let gone = to_remove_count b target (length middle) in
            let is = remove_indices (λ i. stride i (length middle) gone) (length middle) gone in
            rw (e, victims)
              (Guarded-All (leb (length files) target) (leb (length files) (b.oldest + b.newest))
                (length middle == 0) (gone == 0) (pick is middle) (pick-All is middle h))
      ]

pub thin_queue-Tracks :
    (stride : ℕ → ℕ → ℕ → ℕ) (os : Os) (q : Queue) → Tracks q → Tracks (thin_queue stride os q).0
unfolding thin_queue
thin_queue-Tracks stride os q t = elim (Bool-cases q.config.thinning_enabled) [
  | inr e ↦ rw (e, thin_queue) t
  | inl e ↦ elim (Option-cases (list_files_sorted os q.dir)) [
    | inl n ↦ rw (e, n, thin_queue) t
    | inr (files, n) ↦
        let gone = victims stride q files in
        let listed = list_files_sorted-IsListed os q.dir files t.distinct n in
        let thinned = settle-Tracks os (remove_all os by_thinning gone q) (
          remove_all-Tracks os by_thinning gone q
            (victims-All (IsListed q.dir) stride q files
              (candidates-All (IsListed q.dir) (protect q.config (length files)) files listed))
            t) in
        rw (e, n, thin_queue)
          (elim (Bool-cases (length files == 0)) [ inl z ↦ rw z t | inr z ↦ rw z thinned ])
  ]
]

pub resync-Tracks : (os : Os) (q : Queue) → Tracks q → Tracks (resync_counts_from_disk os q)
unfolding resync_counts_from_disk list_files_sorted
resync-Tracks os q t =
    let facts = sort_by_name_facts (images q.dir) in
    elim (Bool-cases os.can_read) [
      | inr e ↦ rw (e, resync_counts_from_disk, list_files_sorted) t
      | inl e ↦
          rw (e, resync_counts_from_disk, list_files_sorted)
            (record { counted = facts.0; sized = facts.1; distinct = t.distinct })
    ]

-- an image in hand whose file is as it was read, or gone since
abbrev pub IsCurrent : Dir → QueuedImage → Type 0
IsCurrent dir img =
    IsListed dir
      (record { name = img.filename; size = img.size_bytes; is_dir = false; has_info = true })

pub mark_uploaded-Tracks :
    (os : Os) (img : QueuedImage) (q : Queue)
    → IsCurrent q.dir img
    → Tracks q
    → Tracks (mark_uploaded os img q).0
unfolding mark_uploaded
mark_uploaded-Tracks os img q l t = elim (Removed-cases (remove os img.filename q.dir).1) [
  | inl e ↦
      rw (e, mark_uploaded)
        (refresh-Tracks os _ (remove-Counts os q.dir q.image_count q.total_size_bytes _ l e t))
  | inr (inl e) ↦ rw (e, mark_uploaded) (refresh-Tracks os _ (resync-Tracks os q t))
  | inr (inr e) ↦ rw (e, mark_uploaded) t
]

-- the two guarded subtractions stop at 0
guarded_minus_one : (n : ℕ) → (if ltb 0 n then n - 1 else n) ≡ n - 1
guarded_minus_one n = ground arith

guarded_minus : (n m : ℕ) → (if leb m n then n - m else 0) ≡ n - m
guarded_minus n m = ground arith

pub drop_queued_image-Tracks :
    (os : Os) (img : QueuedImage) (q : Queue)
    → IsCurrent q.dir img
    → Tracks q
    → Tracks (drop_queued_image os img q).0
unfolding drop_queued_image
drop_queued_image-Tracks os img q l t = elim (Removed-cases (remove os img.filename q.dir).1) [
  | inl e ↦
      let gone = remove-Counts os q.dir q.image_count q.total_size_bytes _ l e t in
      rw (e, drop_queued_image)
        (refresh-Tracks os _ (
          Counts-subst refl (guarded_minus_one q.image_count)
            (guarded_minus q.total_size_bytes img.size_bytes) gone))
  | inr (inl e) ↦ rw (e, drop_queued_image) (refresh-Tracks os _ (resync-Tracks os q t))
  | inr (inr e) ↦ rw (e, drop_queued_image) t
]
