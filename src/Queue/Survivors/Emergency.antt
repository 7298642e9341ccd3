-- ===== src/Queue/Survivors/Emergency.antt =====
-- An emergency on a disk that removes what it is asked to remove keeps exactly the newest images.
use native.Mathlib.Nat.{div-add-mod, mod-lt}
use aviationwx_bridge.Prelude.{
  Bool-cases, List, [], ap, arith, drop, false, if◌then◌else◌, inl, inr, leb, length, length-drop,
  ltb, refl, some, suc, sym, take, true, zero, ℕ, ◌%◌, ◌*◌, ◌+◌, ◌-◌, ◌/◌, ◌<◌, ◌==◌, ◌∙◌, ◌∷◌, ◌≡◌,
  ◌≤◌, ◌⊎◌,
}
use aviationwx_bridge.Queue.Names.{Name}
use aviationwx_bridge.Queue.Disk.{
  Dir, Entry, Os, exists, images, list_files_sorted, not_exist, remove, removed, sort_by_name,
  without,
}
use aviationwx_bridge.Queue.Disk.Laws.{HasDistinctNames, without_absent}
use aviationwx_bridge.Queue.Disk.Listing.{listing_counts, sort_by_name_facts}
use aviationwx_bridge.Queue.State.{Queue, Ratio}
use aviationwx_bridge.Queue.Removal.{
  Reason, by_age, by_thinning, emergency_thin, keep_count, recalculate_oldest, remove_all,
  remove_counted, settle,
}
use aviationwx_bridge.Queue.Survivors.{
  images-HasDistinctNames, listing-without_all, sort-HasDistinctNames, without_all,
  without_all-take,
}
use aviationwx_bridge.Queue.Tracking.Storing.{exists-absent}
use aviationwx_bridge.Queue.Tracking.{Tracks}
use aviationwx_bridge.Queue.Tracking.Removing.{
  recalculate_oldest_same, remove-removed, update_health_level_same,
}
use aviationwx_bridge.Queue.Tracking.Operations.{emergency_thin-Tracks}

-- the disk answers: every listing and every removal of a file that is there succeeds
abbrev pub IsSound : Os → Type 0
IsSound os = (os.can_read ≡ true) × ((n : Name) → os.can_remove n ≡ true)

remove_sound :
    (os : Os) (n : Name) (dir : Dir)
    → ((k : Name) → os.can_remove k ≡ true)
    → ((remove os n dir).1 ≡ removed) ⊎ (((remove os n dir).1 ≡ not_exist) × (without n dir ≡ dir))
unfolding remove
remove_sound os n dir h = elim (Bool-cases (exists n dir)) [
  | inl e ↦ inl (rw (e, remove, h n) refl)
  | inr e ↦ inr (rw (e, remove) refl, without_absent n dir (exists-absent n dir e))
]

dir-remove_sound :
    (os : Os) (reason : Reason) (f : Entry) (q : Queue)
    → ((k : Name) → os.can_remove k ≡ true)
    → (remove_counted os reason f q).0.dir ≡ without f.name q.dir
unfolding remove_counted
dir-remove_sound os by_thinning f q h = elim (remove_sound os f.name q.dir h) [
  | inl e ↦ rw (e, remove_counted) (remove-removed os f.name q.dir e).0
  | inr e ↦ rw (e.0, remove_counted) (sym e.1)
]
dir-remove_sound os by_age f q h = elim (remove_sound os f.name q.dir h) [
  | inl e ↦ rw (e, remove_counted) (remove-removed os f.name q.dir e).0
  | inr e ↦ rw (e.0, remove_counted) (sym e.1)
]

pub remove_all-without_all :
    (os : Os) (reason : Reason) (gone : List Entry) (q : Queue)
    → ((k : Name) → os.can_remove k ≡ true)
    → (remove_all os reason gone q).0.dir ≡ without_all gone q.dir
unfolding remove_all
remove_all-without_all os reason [] q h = refl
remove_all-without_all os reason (f ∷ gone) q h =
    remove_all-without_all os reason gone (remove_counted os reason f q).0 h
    ∙ ap (λ d. without_all gone d) (dir-remove_sound os reason f q h)

pub settle-dir : (os : Os) (r : Queue × ℕ) → (settle os r).0.dir ≡ r.0.dir
unfolding settle
settle-dir os (q, zero) = refl
settle-dir os (q, suc n) =
    (update_health_level_same (recalculate_oldest os q)).0 ∙ (recalculate_oldest_same os q).0

-- the listing after the first files of the listing were removed
pub settle-drop :
    (os : Os) (reason : Reason) (k : ℕ) (q : Queue)
    → ((n : Name) → os.can_remove n ≡ true)
    → HasDistinctNames q.dir
    → let files = sort_by_name (images q.dir) in
      sort_by_name (images (settle os (remove_all os reason (take k files) q)).0.dir) ≡ drop k files
settle-drop os reason k q h d =
    let files = sort_by_name (images q.dir) in
    let gone = take k files in
    ap (λ r. sort_by_name (images r)) (settle-dir os (remove_all os reason gone q))
    ∙ ap (λ r. sort_by_name (images r)) (remove_all-without_all os reason gone q h)
    ∙ listing-without_all gone q.dir
    ∙ without_all-take k files
        (sort-HasDistinctNames (images q.dir) (images-HasDistinctNames q.dir d))

drop_zero : (m : ℕ) (xs : List Entry) → m ≡ 0 → drop m xs ≡ xs
drop_zero m xs h = rw h refl

pub emergency_thin-drop :
    (os : Os) (keep : Ratio) (q : Queue)
    → IsSound os
    → HasDistinctNames q.dir
    → let files = sort_by_name (images q.dir) in
      list_files_sorted os (emergency_thin os keep q).0.dir
      ≡ some (drop (length files - keep_count keep (length files)) files)
unfolding emergency_thin list_files_sorted
emergency_thin-drop os keep q s d =
    let files = sort_by_name (images q.dir) in
    let n = length files in
    let k = keep_count keep n in
    elim (Bool-cases (n == 0)) [
      | inl z ↦
          rw (s.0, list_files_sorted, emergency_thin, z)
            (ap some (sym (drop_zero (n - k) files (ground arith))))
      | inr z ↦ elim (Bool-cases (leb n k)) [
        | inl l ↦
            rw (s.0, emergency_thin, list_files_sorted, z, l)
              (ap some (sym (drop_zero (n - k) files (ground arith))))
        | inr l ↦
            rw (s.0, emergency_thin, list_files_sorted, z, l)
              (ap some (settle-drop os by_thinning (n - k) q s.1 d))
      ]
    ]

-- `k` of `n` images are the whole number of them that the ratio allows, but at least one
abbrev pub IsShare : Ratio → ℕ → ℕ → Type 0
IsShare keep n k =
    (1 ≤ k) × ((k ≡ 1) ⊎ (k * keep.den ≤ n * keep.num)) × (n * keep.num < k * keep.den + keep.den)

at_least_one :
    (q r d x : ℕ)
    → q * d + r ≡ x
    → r < d
    → let k = if ltb q 1 then 1 else q in (1 ≤ k) × ((k ≡ 1) ⊎ (k * d ≤ x)) × (x < k * d + d)
at_least_one zero r d x h l = (omega arith, inl refl, omega arith)
at_least_one (suc q) r d x h l =
    let more : ltb (suc q) 1 ≡ false = ground arith in
    rw more (omega arith, inr (omega arith), omega arith)

pub keep_count-IsShare : (keep : Ratio) (n : ℕ) → 0 < keep.den → IsShare keep n (keep_count keep n)
unfolding keep_count
keep_count-IsShare keep n h =
    at_least_one (n * keep.num / keep.den) (n * keep.num % keep.den) keep.den (n * keep.num)
      (omega (arith, div-add-mod (n * keep.num) keep.den)) (mod-lt (n * keep.num) h)

-- On a sound disk, in a directory without double names, an emergency leaves of the listing exactly
-- the last images in the order of their names: as many as the given share of them is in whole images,
-- but at least one if there was one.
pub emergency_thin_keeps :
    (os : Os) (keep : Ratio) (q : Queue)
    → IsSound os
    → HasDistinctNames q.dir
    → 0 < keep.den
    → let files = sort_by_name (images q.dir) in
      (k : ℕ) × IsShare keep (length files) k
      × (list_files_sorted os (emergency_thin os keep q).0.dir
          ≡ some (drop (length files - k) files))
emergency_thin_keeps os keep q s d h =
    let n = length (sort_by_name (images q.dir)) in
    (keep_count keep n, keep_count-IsShare keep n h, emergency_thin-drop os keep q s d)

-- the count of a queue that an emergency leaves
pub emergency_thin-count :
    (os : Os) (keep : Ratio) (q : Queue)
    → IsSound os
    → Tracks q
    → (emergency_thin os keep q).0.image_count
      ≡ q.image_count - (q.image_count - keep_count keep q.image_count)
emergency_thin-count os keep q s t =
    let files = sort_by_name (images q.dir) in
    let r = (emergency_thin os keep q).0 in
    let t' = emergency_thin-Tracks os keep q t in
    let listed =
      listing_counts os r.dir (drop (length files - keep_count keep (length files)) files)
        (emergency_thin-drop os keep q s t.distinct) in
    let n : length files ≡ q.image_count = (sort_by_name_facts (images q.dir)).0 ∙ sym t.counted in
    t'.counted
    ∙ sym listed.0
    ∙ length-drop (length files - keep_count keep (length files)) files
    ∙ ap (λ k. k - (k - keep_count keep k)) n
