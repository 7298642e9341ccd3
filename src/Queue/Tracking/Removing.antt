-- ===== src/Queue/Tracking/Removing.antt =====
-- Removal keeps the counters in agreement with the directory.
use aviationwx_bridge.Prelude.{
  All, All-weaken, List, Option-cases, [], arith, inl, inr, refl, some, subst, suc, true, zero, ℕ,
  ◌-◌, ◌∙◌, ◌∷◌, ◌≡◌, ◌⊎◌,
}
use aviationwx_bridge.Queue.Names.{Name}
use aviationwx_bridge.Queue.Disk.{
  Dir, Entry, Os, Removed, exists, failed, images, is_image, list_files_sorted, not_exist, remove,
  removed, sort_by_name, without,
}
use aviationwx_bridge.Queue.Disk.Laws.{
  Fits, Fits-without, HasDistinctNames, images-without, without-HasDistinctNames,
}
use aviationwx_bridge.Queue.Disk.Listing.{listed_present}
use aviationwx_bridge.Queue.State.{Queue, maybe_resume_capture, set_health, update_health_level}
use aviationwx_bridge.Queue.Removal.{
  Reason, by_age, by_thinning, count_reason, recalculate_oldest, remove_all, remove_counted, settle,
}
use aviationwx_bridge.Queue.Tracking.{Counts, Tracks}

-- The health rules change neither the directory nor the counters.
pub update_health_level_same :
    (q : Queue)
    → ((update_health_level q).dir ≡ q.dir)
      × ((update_health_level q).image_count ≡ q.image_count)
      × ((update_health_level q).total_size_bytes ≡ q.total_size_bytes)
unfolding update_health_level maybe_resume_capture set_health
update_health_level_same q = ground arith

pub recalculate_oldest_same :
    (os : Os) (q : Queue)
    → ((recalculate_oldest os q).dir ≡ q.dir)
      × ((recalculate_oldest os q).image_count ≡ q.image_count)
      × ((recalculate_oldest os q).total_size_bytes ≡ q.total_size_bytes)
unfolding recalculate_oldest
recalculate_oldest_same os q = elim (Option-cases (list_files_sorted os q.dir)) [
  | inl e ↦ rw (e, recalculate_oldest) (refl, refl, refl)
  | inr (files, e) ↦ rw (e, recalculate_oldest) (refl, refl, refl)
]

pub Counts-subst :
    {dir dir' : Dir} {n n' b b' : ℕ}
    → dir' ≡ dir
    → n' ≡ n
    → b' ≡ b
    → Counts dir n b
    → Counts dir' n' b'
Counts-subst p q r c = rw (p, q, r) c

pub refresh-Tracks :
    (os : Os) (q : Queue) → Tracks q → Tracks (update_health_level (recalculate_oldest os q))
refresh-Tracks os q t =
    let h = update_health_level_same (recalculate_oldest os q) in
    let k = recalculate_oldest_same os q in Counts-subst (h.0 ∙ k.0) (h.1 ∙ k.1) (h.2 ∙ k.2) t

pub Removed-cases : (r : Removed) → (r ≡ removed) ⊎ (r ≡ not_exist) ⊎ (r ≡ failed)
Removed-cases removed = inl refl
Removed-cases not_exist = inr (inl refl)
Removed-cases failed = inr (inr refl)

-- what `os.Remove` did to the directory
pub remove-removed :
    (os : Os) (n : Name) (dir : Dir)
    → (remove os n dir).1 ≡ removed
    → ((remove os n dir).0 ≡ without n dir) × (exists n dir ≡ true)
unfolding remove
remove-removed os n dir h = ground arith

-- a file as it was listed, or gone since
abbrev pub IsListed : Dir → Entry → Type 0
IsListed dir f = Fits dir f × (is_image f ≡ true)

Counts-without :
    (dir : Dir) (n bytes : ℕ) (f : Entry)
    → IsListed dir f
    → exists f.name dir ≡ true
    → Counts dir n bytes
    → Counts (without f.name dir) (n - 1) (bytes - f.size)
Counts-without dir n bytes f (inl gone, i) x c = absurd (cc (rw gone at x))
Counts-without dir n bytes f (inr found, i) x c =
    let fewer = images-without f.name dir f c.distinct found i in
    record {
      counted = omega (arith, fewer.0, c.counted);
      sized = omega (arith, fewer.1, c.sized);
      distinct = without-HasDistinctNames f.name dir c.distinct;
    }

pub remove-Counts :
    (os : Os) (dir : Dir) (n bytes : ℕ) (f : Entry)
    → IsListed dir f
    → (remove os f.name dir).1 ≡ removed
    → Counts dir n bytes
    → Counts (remove os f.name dir).0 (n - 1) (bytes - f.size)
remove-Counts os dir n bytes f l h c =
    let gone = remove-removed os f.name dir h in
    Counts-subst gone.0 refl refl (Counts-without dir n bytes f l gone.1 c)

count_reason-Tracks : (reason : Reason) (q : Queue) → Tracks q → Tracks (count_reason reason q)
count_reason-Tracks by_thinning q t = t
count_reason-Tracks by_age q t = t

pub remove_counted-Tracks :
    (os : Os) (reason : Reason) (f : Entry) (q : Queue)
    → IsListed q.dir f
    → Tracks q
    → Tracks (remove_counted os reason f q).0
unfolding remove_counted
remove_counted-Tracks os reason f q l t = elim (Removed-cases (remove os f.name q.dir).1) [
  | inl e ↦
      rw (e, remove_counted)
        (count_reason-Tracks reason _
          (remove-Counts os q.dir q.image_count q.total_size_bytes f l e t))
  | inr (inl e) ↦ rw (e, remove_counted) t
  | inr (inr e) ↦ rw (e, remove_counted) t
]

-- the directory after one removal
pub dir-remove_counted :
    (os : Os) (reason : Reason) (f : Entry) (q : Queue)
    → ((remove_counted os reason f q).0.dir ≡ q.dir)
      ⊎ ((remove_counted os reason f q).0.dir ≡ without f.name q.dir)
unfolding remove_counted
dir-remove_counted os by_thinning f q = elim (Removed-cases (remove os f.name q.dir).1) [
  | inl e ↦ inr (rw (e, remove_counted) (remove-removed os f.name q.dir e).0)
  | inr (inl e) ↦ inl (rw (e, remove_counted))
  | inr (inr e) ↦ inl (rw (e, remove_counted))
]
dir-remove_counted os by_age f q = elim (Removed-cases (remove os f.name q.dir).1) [
  | inl e ↦ inr (rw (e, remove_counted) (remove-removed os f.name q.dir e).0)
  | inr (inl e) ↦ inl (rw (e, remove_counted))
  | inr (inr e) ↦ inl (rw (e, remove_counted))
]

pub remove_counted-IsListed :
    (os : Os) (reason : Reason) (f : Entry) (q : Queue) (files : List Entry)
    → All (IsListed q.dir) files
    → All (IsListed (remove_counted os reason f q).0.dir) files
remove_counted-IsListed os reason f q files h = elim (dir-remove_counted os reason f q) [
  | inl e ↦ rw e h
  | inr e ↦ rw e (All-weaken files (λ g l. (Fits-without f.name q.dir g l.0, l.1)) h)
]

pub remove_all-Tracks :
    (os : Os) (reason : Reason) (files : List Entry) (q : Queue)
    → All (IsListed q.dir) files
    → Tracks q
    → Tracks (remove_all os reason files q).0
unfolding remove_all
remove_all-Tracks os reason [] q l t = t
remove_all-Tracks os reason (f ∷ files) q l t =
    remove_all-Tracks os reason files (remove_counted os reason f q).0
      (remove_counted-IsListed os reason f q files l.1) (remove_counted-Tracks os reason f q l.0 t)

pub settle-Tracks : (os : Os) (r : Queue × ℕ) → Tracks r.0 → Tracks (settle os r).0
unfolding settle
settle-Tracks os (q, zero) t = t
settle-Tracks os (q, suc n) t = refresh-Tracks os q t

-- everything that a listing shows is as listed
pub list_files_sorted-IsListed :
    (os : Os) (dir : Dir) (files : List Entry)
    → HasDistinctNames dir
    → list_files_sorted os dir ≡ some files
    → All (IsListed dir) files
unfolding list_files_sorted
list_files_sorted-IsListed os dir files d h =
    let listed : sort_by_name (images dir) ≡ files = ground arith in
    subst (λ fs. All (IsListed dir) fs) listed
      (All-weaken (sort_by_name (images dir)) (λ f p. (inr p.0, p.1)) (listed_present dir d))
