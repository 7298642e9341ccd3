-- ===== src/Queue/Survivors/Ends.antt =====
-- Thinning takes no image of the protected ends, whatever the disk answers.
use aviationwx_bridge.Prelude.{
  All, All-drop, All-take, All-weaken, Bool-cases, List, [], ap, arith, drop, false, inl, inr, leb,
  length, none, refl, some, suc, take, zero, ℕ, ◌+◌, ◌-◌, ◌/◌, ◌<◌, ◌==◌, ◌∙◌, ◌∷◌, ◌≡◌, ◌≤◌,
}
use aviationwx_bridge.Queue.Names.{Name, name_eq}
use aviationwx_bridge.Queue.Disk.{Dir, Entry, Os, images, list_files_sorted, lookup, sort_by_name}
use aviationwx_bridge.Queue.Disk.Laws.{HasDistinctNames, lookup-without_ne, name_eq_sym}
use aviationwx_bridge.Queue.Disk.Listing.{absent_ne, listed_present}
use aviationwx_bridge.Queue.State.{Queue}
use aviationwx_bridge.Queue.Removal.{Reason, by_thinning, remove_all, remove_counted}
use aviationwx_bridge.Queue.Thinning.{Bounds, candidates, protect, thin_queue, victims}
use aviationwx_bridge.Queue.Survivors.{images-HasDistinctNames, sort-HasDistinctNames}
use aviationwx_bridge.Queue.Survivors.Emergency.{settle-dir}
use aviationwx_bridge.Queue.Tracking.Removing.{dir-remove_counted}
use aviationwx_bridge.Queue.Tracking.Operations.{victims-All}

lookup-remove_all :
    (os : Os) (reason : Reason) (m : Name) (gone : List Entry) (q : Queue)
    → All (λ (g : Entry). name_eq g.name m ≡ false) gone
    → lookup m (remove_all os reason gone q).0.dir ≡ lookup m q.dir
unfolding remove_all
lookup-remove_all os reason m [] q h = refl
lookup-remove_all os reason m (f ∷ gone) q h =
    let first = lookup-remove_counted in
    lookup-remove_all os reason m gone (remove_counted os reason f q).0 h.1 ∙ first
  where
    lookup-remove_counted : lookup m (remove_counted os reason f q).0.dir ≡ lookup m q.dir
    lookup-remove_counted = elim (dir-remove_counted os reason f q) [
      | inl e ↦ ap (λ d. lookup m d) e
      | inr e ↦ ap (λ d. lookup m d) e ∙ lookup-without_ne f.name m q.dir h.0
    ]

-- of two parts of a listing no name of one stands in the other
abbrev Apart : List Entry → List Entry → Type 0
Apart fs gs = All (λ (f : Entry). All (λ (g : Entry). name_eq g.name f.name ≡ false) gs) fs

others :
    (x : Entry) (xs : List Entry)
    → lookup x.name xs ≡ none
    → All (λ (g : Entry). name_eq g.name x.name ≡ false) xs
others x xs h = All-weaken xs (λ g e. name_eq_sym g.name x.name ∙ e) (absent_ne x.name xs h)

take-drop-Apart : (k : ℕ) (xs : List Entry) → HasDistinctNames xs → Apart (take k xs) (drop k xs)
take-drop-Apart zero xs d = tt
take-drop-Apart (suc k) [] d = tt
take-drop-Apart (suc k) (x ∷ xs) d = (All-drop _ k xs (others x xs d.0), take-drop-Apart k xs d.1)

All-zip : (P Q : Entry → Type 0) (xs : List Entry) → All P xs → All Q xs → All (λ x. P x × Q x) xs
All-zip P Q [] h k = tt
All-zip P Q (x ∷ xs) h k = ((h.0, k.0), All-zip P Q xs h.1 k.1)

Apart-nil : (xs : List Entry) → Apart xs []
Apart-nil [] = tt
Apart-nil (x ∷ xs) = (tt, Apart-nil xs)

drop-take-Apart : (k : ℕ) (xs : List Entry) → HasDistinctNames xs → Apart (drop k xs) (take k xs)
drop-take-Apart zero xs d = Apart-nil xs
drop-take-Apart (suc k) [] d = tt
drop-take-Apart (suc k) (x ∷ xs) d =
    All-zip (λ (f : Entry). name_eq x.name f.name ≡ false)
      (λ (f : Entry). All (λ (g : Entry). name_eq g.name f.name ≡ false) (take k xs)) (drop k xs)
      (All-drop _ k xs (absent_ne x.name xs d.0)) (drop-take-Apart k xs d.1)

All-drop-take :
    (P : Entry → Type 0) (o j : ℕ) (xs : List Entry)
    → All P (drop o xs)
    → All P (drop o (take j xs))
All-drop-take P zero j xs h = All-take P j xs h
All-drop-take P (suc o) zero xs h = tt
All-drop-take P (suc o) (suc j) [] h = tt
All-drop-take P (suc o) (suc j) (x ∷ xs) h = All-drop-take P o j xs h

-- the candidates hold no file of either end
ends-Apart :
    (b : Bounds) (files : List Entry)
    → HasDistinctNames files
    → Apart (take b.oldest files) (candidates b files)
      × Apart (drop (length files - b.newest) files) (candidates b files)
unfolding candidates
ends-Apart b files d = (
  All-weaken (take b.oldest files)
      (λ f h. All-drop-take _ b.oldest (length files - b.newest) files h)
      (take-drop-Apart b.oldest files d),
  All-weaken (drop (length files - b.newest) files)
      (λ f h. All-drop _ b.oldest (take (length files - b.newest) files) h)
      (drop-take-Apart (length files - b.newest) files d),
)

lookup-thin_queue :
    (stride : ℕ → ℕ → ℕ → ℕ) (os : Os) (q : Queue) (m : Name)
    → let files = sort_by_name (images q.dir) in
      All
        (λ (g : Entry). name_eq g.name m ≡ false)
        (candidates (protect q.config (length files)) files)
      → lookup m (thin_queue stride os q).0.dir ≡ lookup m q.dir
unfolding thin_queue list_files_sorted
lookup-thin_queue stride os q m h =
    let files = sort_by_name (images q.dir) in
    let gone = victims stride q files in
    let kept =
      ap (λ d. lookup m d) (settle-dir os (remove_all os by_thinning gone q))
      ∙ lookup-remove_all os by_thinning m gone q (victims-All _ stride q files h) in
    elim (Bool-cases q.config.thinning_enabled) [
      | inr e ↦ rw (e, thin_queue) refl
      | inl e ↦ elim (Bool-cases os.can_read) [
        | inr r ↦ rw (e, r, thin_queue, list_files_sorted) refl
        | inl r ↦
            rw (e, r, thin_queue, list_files_sorted)
              (elim (Bool-cases (length files == 0)) [ inl z ↦ rw z refl | inr z ↦ rw z kept ])
      ]
    ]

abbrev pub IsKept : Dir → List Entry → Type 0
IsKept dir fs = All (λ (f : Entry). lookup f.name dir ≡ some f) fs

protected-IsKept :
    (stride : ℕ → ℕ → ℕ → ℕ) (os : Os) (q : Queue)
    → HasDistinctNames q.dir
    → let files = sort_by_name (images q.dir) in
      let b = protect q.config (length files) in
      IsKept (thin_queue stride os q).0.dir (take b.oldest files)
      × IsKept (thin_queue stride os q).0.dir (drop (length files - b.newest) files)
protected-IsKept stride os q d =
    let files = sort_by_name (images q.dir) in
    let b = protect q.config (length files) in
    let apart =
      ends-Apart b files (sort-HasDistinctNames (images q.dir) (images-HasDistinctNames q.dir d)) in
    let there = All-weaken files (λ f p. p.0) (listed_present q.dir d) in
    (
      All-weaken (take b.oldest files) (λ f p. lookup-thin_queue stride os q f.name p.0 ∙ p.1)
          (All-zip _ (λ f. lookup f.name q.dir ≡ some f) (take b.oldest files) apart.0
            (All-take _ b.oldest files there)),
      All-weaken (drop (length files - b.newest) files)
          (λ f p. lookup-thin_queue stride os q f.name p.0 ∙ p.1)
          (All-zip _ (λ f. lookup f.name q.dir ≡ some f) (drop (length files - b.newest) files)
            apart.1 (All-drop _ (length files - b.newest) files there)),
    )

-- the first and the last images of a listing, as many as given, are in their place
abbrev pub KeepsEnds : Dir → List Entry → ℕ → ℕ → Type 0
KeepsEnds dir files oldest newest =
    IsKept dir (take oldest files) × IsKept dir (drop (length files - newest) files)

-- Whatever the disk answers and whichever candidates are chosen, thinning a directory without double
-- names leaves in place, in the order of the names, as many of the first and of the last images as the
-- configuration protects of each, where these are not all images, and a quarter of the images each
-- where they are.
pub thin_queue_protects :
    (stride : ℕ → ℕ → ℕ → ℕ) (os : Os) (q : Queue)
    → HasDistinctNames q.dir
    → let files = sort_by_name (images q.dir) in
      let n = length files in
      let dir = (thin_queue stride os q).0.dir in
      (q.config.protect_oldest + q.config.protect_newest < n
        → KeepsEnds dir files q.config.protect_oldest q.config.protect_newest)
      × (n ≤ q.config.protect_oldest + q.config.protect_newest
          → KeepsEnds dir files (n / 4) (n / 4))
unfolding protect
thin_queue_protects stride os q d =
    let n = length (sort_by_name (images q.dir)) in
    let sum = q.config.protect_oldest + q.config.protect_newest in
    let kept = protected-IsKept stride os q d in
    elim (Bool-cases (leb n sum)) [
      | inl e ↦ (λ h. absurd (ground arith), λ h. rw (protect, e) at kept)
      | inr e ↦ (λ h. rw (protect, e) at kept, λ h. absurd (ground arith))
    ]
