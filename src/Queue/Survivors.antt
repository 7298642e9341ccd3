-- ===== src/Queue/Survivors.antt =====
-- Which images an emergency leaves: removal and listing exchange, so that the removal of the first
-- files of a listing leaves the rest of it.
pub mod Emergency
pub mod Expiry
pub mod Ends
use aviationwx_bridge.Prelude.{
  All, All-weaken, Bool-cases, List, [], ap, drop, false, inl, inr, none, refl, suc, sym, take,
  true, zero, ℕ, ◌∙◌, ◌∷◌, ◌≡◌,
}
use aviationwx_bridge.Queue.Names.{Name, name_eq, name_lt}
use aviationwx_bridge.Queue.Names.RoundTrip.{name_eq_refl}
use aviationwx_bridge.Queue.Disk.{
  Dir, Entry, images, insert_by_name, is_image, lookup, sort_by_name, without,
}
use aviationwx_bridge.Queue.Disk.Laws.{HasDistinctNames, name_eq_sym, without_absent}
use aviationwx_bridge.Queue.Disk.Listing.{
  IsSortedByName, name_ge_trans, sort_by_name-IsSortedByName,
}

-- Removal and the listing exchange.

images-without_eq : (n : Name) (dir : Dir) → images (without n dir) ≡ without n (images dir)
images-without_eq n [] = refl
images-without_eq n (e ∷ dir) =
    let ih = images-without_eq n dir in
    elim (Bool-cases (name_eq e.name n)) [
      | inl p ↦ elim (Bool-cases (is_image e)) [ inl i ↦ rw (p, i, p) ih | inr i ↦ rw (p, i) ih ]
      | inr p ↦ elim (Bool-cases (is_image e)) [
        | inl i ↦ rw (p, i, p) (ap (λ d. e ∷ d) ih)
        | inr i ↦ rw (p, i) ih
      ]
    ]

-- an entry goes before every list of names that are not smaller
insert_first :
    (e : Entry) (fs : List Entry)
    → All (λ (f : Entry). name_lt f.name e.name ≡ false) fs
    → insert_by_name e fs ≡ e ∷ fs
insert_first e [] h = refl
insert_first e (f ∷ fs) h = rw h.0 refl

without-All : (P : Entry → Type 0) (n : Name) (fs : List Entry) → All P fs → All P (without n fs)
without-All P n [] h = tt
without-All P n (f ∷ fs) h = elim (Bool-cases (name_eq f.name n)) [
  | inl p ↦ rw p (without-All P n fs h.1)
  | inr p ↦ rw p (h.0, without-All P n fs h.1)
]

insert-without_same :
    (n : Name) (e : Entry) (fs : List Entry)
    → name_eq e.name n ≡ true
    → without n (insert_by_name e fs) ≡ without n fs
insert-without_same n e [] h = rw h refl
insert-without_same n e (f ∷ fs) h =
    let ih = insert-without_same n e fs h in
    elim (Bool-cases (name_lt f.name e.name)) [
      | inr l ↦ rw (l, h) refl
      | inl l ↦ elim (Bool-cases (name_eq f.name n)) [
        | inl p ↦ rw (l, p) ih
        | inr p ↦ rw (l, p) (ap (λ d. f ∷ d) ih)
      ]
    ]

insert-without_other :
    (n : Name) (e : Entry) (fs : List Entry)
    → IsSortedByName fs
    → name_eq e.name n ≡ false
    → without n (insert_by_name e fs) ≡ insert_by_name e (without n fs)
insert-without_other n e [] s h = rw h refl
insert-without_other n e (f ∷ fs) s h =
    let ih = insert-without_other n e fs s.1 h in
    elim (Bool-cases (name_lt f.name e.name)) [
      | inl l ↦ elim (Bool-cases (name_eq f.name n)) [
        | inl p ↦ rw (l, p) ih
        | inr p ↦ rw (l, p, l) (ap (λ d. f ∷ d) ih)
      ]
      | inr l ↦
          let later = All-weaken fs (λ g k. name_ge_trans e.name f.name g.name l k) s.0 in
          elim (Bool-cases (name_eq f.name n)) [
            | inl p ↦ rw (l, h, p) (sym (insert_first e (without n fs) (without-All _ n fs later)))
            | inr p ↦ rw (l, h, p, l) refl
          ]
    ]

sort-without :
    (n : Name) (es : List Entry) → sort_by_name (without n es) ≡ without n (sort_by_name es)
sort-without n [] = refl
sort-without n (e ∷ es) = elim (Bool-cases (name_eq e.name n)) [
  | inl p ↦ rw p (sort-without n es ∙ sym (insert-without_same n e (sort_by_name es) p))
  | inr p ↦ rw p (
      ap (λ d. insert_by_name e d) (sort-without n es)
      ∙ sym (insert-without_other n e (sort_by_name es) (sort_by_name-IsSortedByName es) p))
]

abbrev pub without_all : List Entry → Dir → Dir
without_all [] dir = dir
without_all (f ∷ fs) dir = without_all fs (without f.name dir)

pub listing-without_all :
    (gone : List Entry) (dir : Dir)
    → sort_by_name (images (without_all gone dir)) ≡ without_all gone (sort_by_name (images dir))
listing-without_all [] dir = refl
listing-without_all (f ∷ gone) dir =
    listing-without_all gone (without f.name dir)
    ∙ ap (λ d. without_all gone (sort_by_name d)) (images-without_eq f.name dir)
    ∙ ap (λ d. without_all gone d) (sort-without f.name (images dir))

-- The names of a listing are distinct.

absent_images : (n : Name) (dir : Dir) → lookup n dir ≡ none → lookup n (images dir) ≡ none
absent_images n [] h = refl
absent_images n (e ∷ dir) h = elim (Bool-cases (name_eq e.name n)) [
  | inl p ↦ cc (rw p at h)
  | inr p ↦
      let ih = absent_images n dir (rw p at h) in
      elim (Bool-cases (is_image e)) [ inl i ↦ rw (i, p) ih | inr i ↦ rw i ih ]
]

pub images-HasDistinctNames : (dir : Dir) → HasDistinctNames dir → HasDistinctNames (images dir)
images-HasDistinctNames [] h = tt
images-HasDistinctNames (e ∷ dir) h = elim (Bool-cases (is_image e)) [
  | inl i ↦ rw i (absent_images e.name dir h.0, images-HasDistinctNames dir h.1)
  | inr i ↦ rw i (images-HasDistinctNames dir h.1)
]

absent_insert :
    (n : Name) (e : Entry) (fs : List Entry)
    → name_eq e.name n ≡ false
    → lookup n fs ≡ none
    → lookup n (insert_by_name e fs) ≡ none
absent_insert n e [] h k = rw h refl
absent_insert n e (f ∷ fs) h k = elim (Bool-cases (name_lt f.name e.name)) [
  | inr l ↦ rw (l, h) k
  | inl l ↦ elim (Bool-cases (name_eq f.name n)) [
    | inl p ↦ cc (rw p at k)
    | inr p ↦ rw (l, p) (absent_insert n e fs h (rw p at k))
  ]
]

absent_sort : (n : Name) (es : List Entry) → lookup n es ≡ none → lookup n (sort_by_name es) ≡ none
absent_sort n [] h = refl
absent_sort n (e ∷ es) h = elim (Bool-cases (name_eq e.name n)) [
  | inl p ↦ cc (rw p at h)
  | inr p ↦ absent_insert n e (sort_by_name es) p (absent_sort n es (rw p at h))
]

insert-HasDistinctNames :
    (e : Entry) (fs : List Entry)
    → lookup e.name fs ≡ none
    → HasDistinctNames fs
    → HasDistinctNames (insert_by_name e fs)
insert-HasDistinctNames e [] h d = (refl, tt)
insert-HasDistinctNames e (f ∷ fs) h d = elim (Bool-cases (name_lt f.name e.name)) [
  | inr l ↦ rw l (h, d)
  | inl l ↦ elim (Bool-cases (name_eq f.name e.name)) [
    | inl p ↦ absurd (cc (rw p at h))
    | inr p ↦ rw l (
      absent_insert f.name e fs (rw name_eq_sym p) d.0,
      insert-HasDistinctNames e fs (rw p at h) d.1,
    )
  ]
]

pub sort-HasDistinctNames :
    (es : List Entry) → HasDistinctNames es → HasDistinctNames (sort_by_name es)
sort-HasDistinctNames [] h = tt
sort-HasDistinctNames (e ∷ es) h =
    insert-HasDistinctNames e (sort_by_name es) (absent_sort e.name es h.0)
      (sort-HasDistinctNames es h.1)

pub without_all-take :
    (k : ℕ) (xs : List Entry) → HasDistinctNames xs → without_all (take k xs) xs ≡ drop k xs
without_all-take zero xs d = refl
without_all-take (suc k) [] d = refl
without_all-take (suc k) (x ∷ xs) d =
    let first : without x.name (x ∷ xs) ≡ xs =
      rw (name_eq_refl x.name) (without_absent x.name xs d.0) in
    ap (λ r. without_all (take k xs) r) first ∙ without_all-take k xs d.1
