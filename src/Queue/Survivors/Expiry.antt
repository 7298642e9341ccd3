-- ===== src/Queue/Survivors/Expiry.antt =====
-- An expiry on a disk that removes what it is asked to remove removes exactly the old images at the
-- front of the listing.
use aviationwx_bridge.Prelude.{
  Bool-cases, Duration, Instant, List, [], ap, before, drop, if◌then◌else◌, inl, inr, refl, second,
  some, suc, take, ℕ, ◌*◌, ◌+◌, ◌∙◌, ◌∷◌, ◌≡◌,
}
use aviationwx_bridge.Queue.Names.{parse_timestamp}
use aviationwx_bridge.Queue.Disk.{Entry, Os, images, list_files_sorted, sort_by_name}
use aviationwx_bridge.Queue.Disk.Laws.{HasDistinctNames}
use aviationwx_bridge.Queue.State.{Queue}
use aviationwx_bridge.Queue.Removal.{
  by_age, expire_loop, expire_old_images, remove_all, remove_counted, settle, tally,
}
use aviationwx_bridge.Queue.Survivors.Emergency.{IsSound, settle-drop}

-- how many files at the front of a listing are older than the maximal age
unfoldable pub old_count : Instant → Duration → List Entry → ℕ
old_count now max_age [] = 0
old_count now max_age (file ∷ files) =
    let rest = old_count now max_age files in
    if before (parse_timestamp file.name + max_age) now then suc rest else 0

-- the loop removes those files
expire_loop-remove_all :
    (os : Os) (now : Instant) (max_age : Duration) (files : List Entry) (q : Queue)
    → expire_loop os now max_age files q
      ≡ remove_all os by_age (take (old_count now max_age files) files) q
unfolding expire_loop remove_all old_count
expire_loop-remove_all os now max_age [] q = refl
expire_loop-remove_all os now max_age (f ∷ files) q =
    elim (Bool-cases (before (parse_timestamp f.name + max_age) now)) [
      | inr e ↦ rw e refl
      | inl e ↦ rw e (
          ap (λ (r : Queue × ℕ). (r.0, tally (remove_counted os by_age f q).1 r.1))
            (expire_loop-remove_all os now max_age files (remove_counted os by_age f q).0))
    ]

-- On a sound disk, in a directory without double names, an expiry leaves of the listing exactly what
-- follows its first files that are older than the maximal age: it stops at the first that is not.
pub expire_old_images_keeps :
    (os : Os) (now : Instant) (q : Queue)
    → IsSound os
    → HasDistinctNames q.dir
    → let files = sort_by_name (images q.dir) in
      list_files_sorted os (expire_old_images os now q).0.dir
      ≡ some (drop (old_count now (q.config.max_age_seconds * second) files) files)
unfolding expire_old_images list_files_sorted
expire_old_images_keeps os now q s d =
    let files = sort_by_name (images q.dir) in
    let max_age = q.config.max_age_seconds * second in
    rw (s.0, expire_old_images, list_files_sorted)
      (ap (λ (r : Queue × ℕ). some (sort_by_name (images (settle os r).0.dir)))
          (expire_loop-remove_all os now max_age files q)
        ∙ ap some (settle-drop os by_age (old_count now max_age files) q s.1 d))
