-- ===== src/Queue/Disk/Listing.antt =====
-- What `list_files_sorted` returns: the images of the directory, sorted by name.
use mathlib.Core.List.{Perm}
use mathlib.Core.List.Perm
use aviationwx_bridge.Prelude.{
  All, All-weaken, Bool-cases, List, [], arith, false, inl, inr, length, none, refl, some, subst,
  suc, true, ◌+◌, ◌∷◌, ◌≡◌,
}
use aviationwx_bridge.Queue.Names.{Name, name_eq, name_lt}
use aviationwx_bridge.Queue.Disk.{
  Dir, Entry, Os, images, insert_by_name, is_image, list_files_sorted, lookup, sort_by_name, total,
}
use aviationwx_bridge.Queue.Names.RoundTrip.{name_eq_refl}
use aviationwx_bridge.Queue.Disk.Laws.{HasDistinctNames, name_eq_sym}

insert_by_name_facts :
    (e : Entry) (fs : List Entry)
    → (length (insert_by_name e fs) ≡ suc (length fs))
      × (total (insert_by_name e fs) ≡ e.size + total fs)
insert_by_name_facts e [] = (refl, refl)
insert_by_name_facts e (f ∷ fs) = elim (Bool-cases (name_lt f.name e.name)) [
  | inl h ↦ let ih = insert_by_name_facts e fs in rw h (omega (arith, ih.0), omega (arith, ih.1))
  | inr h ↦ rw h (refl, refl)
]

-- Sorting keeps the number of files and of bytes.
pub sort_by_name_facts :
    (es : List Entry)
    → (length (sort_by_name es) ≡ length es) × (total (sort_by_name es) ≡ total es)
sort_by_name_facts [] = (refl, refl)
sort_by_name_facts (e ∷ es) =
    let ins = insert_by_name_facts e (sort_by_name es) in
    let ih = sort_by_name_facts es in (omega (arith, ins.0, ih.0), omega (arith, ins.1, ih.1))

insert_by_name-perm : (e : Entry) (fs : List Entry) → Perm (insert_by_name e fs) (e ∷ fs)
insert_by_name-perm e [] = Perm.refl (e ∷ [])
insert_by_name-perm e (f ∷ fs) = elim (Bool-cases (name_lt f.name e.name)) [
  | inl h ↦ rw h (Perm.trans (Perm.cons f (insert_by_name-perm e fs)) (Perm.swap e f fs))
  | inr h ↦ rw h (Perm.refl (e ∷ f ∷ fs))
]

pub sort_by_name-perm : (es : List Entry) → Perm (sort_by_name es) es
sort_by_name-perm [] = Perm.refl []
sort_by_name-perm (e ∷ es) =
    Perm.trans (insert_by_name-perm e (sort_by_name es)) (Perm.cons e (sort_by_name-perm es))

module _ (P : Entry → Type 0) where
  insert_by_name-All : (e : Entry) (fs : List Entry) → P e → All P fs → All P (insert_by_name e fs)
  insert_by_name-All e [] p h = (p, tt)
  insert_by_name-All e (f ∷ fs) p h = elim (Bool-cases (name_lt f.name e.name)) [
    | inl q ↦ rw q (h.0, insert_by_name-All e fs p h.1)
    | inr q ↦ rw q (p, h)
  ]

  pub sort_by_name-All : (es : List Entry) → All P es → All P (sort_by_name es)
  sort_by_name-All [] h = tt
  sort_by_name-All (e ∷ es) h = insert_by_name-All e (sort_by_name es) h.0 (sort_by_name-All es h.1)

  pub images-All : (dir : Dir) → All P dir → All (λ e. P e × (is_image e ≡ true)) (images dir)
  images-All [] h = tt
  images-All (e ∷ dir) h = elim (Bool-cases (is_image e)) [
    | inl q ↦ rw q ((h.0, q), images-All dir h.1)
    | inr q ↦ rw q (images-All dir h.1)
  ]

-- each name is followed by none that is smaller
abbrev pub IsSortedByName : List Entry → Type 0
IsSortedByName [] = Unit
IsSortedByName (e ∷ es) = All (λ (f : Entry). name_lt f.name e.name ≡ false) es × IsSortedByName es

pub name_lt_asym : (a b : Name) → name_lt a b ≡ true → name_lt b a ≡ false
name_lt_asym a [] h = cc
name_lt_asym [] (b ∷ bs) h = refl
name_lt_asym (a ∷ s) (b ∷ t) h = ground (arith, name_lt_asym s t)

pub name_ge_trans : (a b c : Name) → name_lt b a ≡ false → name_lt c b ≡ false → name_lt c a ≡ false
name_ge_trans [] b [] h k = refl
name_ge_trans [] b (c ∷ u) h k = refl
name_ge_trans (a ∷ s) [] c h k = cc
name_ge_trans (a ∷ s) (b ∷ t) [] h k = cc
name_ge_trans (a ∷ s) (b ∷ t) (c ∷ u) h k = ground (arith, name_ge_trans s t u)

insert_by_name-IsSortedByName :
    (e : Entry) (fs : List Entry) → IsSortedByName fs → IsSortedByName (insert_by_name e fs)
insert_by_name-IsSortedByName e [] h = (tt, tt)
insert_by_name-IsSortedByName e (f ∷ fs) h = elim (Bool-cases (name_lt f.name e.name)) [
  | inl q ↦ rw q (
    insert_by_name-All (λ g. name_lt g.name f.name ≡ false) e fs (name_lt_asym f.name e.name q) h.0,
    insert_by_name-IsSortedByName e fs h.1,
  )
  | inr q ↦ rw q ((q, All-weaken fs (λ g k. name_ge_trans e.name f.name g.name q k) h.0), h)
]

pub sort_by_name-IsSortedByName : (es : List Entry) → IsSortedByName (sort_by_name es)
sort_by_name-IsSortedByName [] = tt
sort_by_name-IsSortedByName (e ∷ es) =
    insert_by_name-IsSortedByName e (sort_by_name es) (sort_by_name-IsSortedByName es)

pub listing_counts :
    (os : Os) (dir : Dir) (files : List Entry)
    → list_files_sorted os dir ≡ some files
    → (length files ≡ length (images dir)) × (total files ≡ total (images dir))
unfolding list_files_sorted
listing_counts os dir files h =
    let listed : sort_by_name (images dir) ≡ files = ground arith in
    subst (λ fs. (length fs ≡ length (images dir)) × (total fs ≡ total (images dir))) listed
      (sort_by_name_facts (images dir))

-- a found name is that of an entry, so an absent name is no entry's
pub absent_ne :
    (n : Name) (dir : Dir) → lookup n dir ≡ none → All (λ f. name_eq n f.name ≡ false) dir
absent_ne n [] h = tt
absent_ne n (e ∷ dir) h = elim (Bool-cases (name_eq e.name n)) [
  | inl q ↦ absurd (cc (rw q at h))
  | inr q ↦ (rw name_eq_sym q, absent_ne n dir (rw q at h))
]

found_later :
    (e : Entry) (dir fs : List Entry)
    → All (λ f. name_eq e.name f.name ≡ false) fs
    → All (λ f. lookup f.name dir ≡ some f) fs
    → All (λ f. lookup f.name (e ∷ dir) ≡ some f) fs
found_later e dir [] h k = tt
found_later e dir (f ∷ fs) h k = (rw h.0 k.0, found_later e dir fs h.1 k.1)

present : (dir : Dir) → HasDistinctNames dir → All (λ f. lookup f.name dir ≡ some f) dir
present [] h = tt
present (e ∷ dir) h =
    (rw (name_eq_refl e.name), found_later e dir dir (absent_ne e.name dir h.0) (present dir h.1))

-- every image of the directory is found under its name
pub listed_present :
    (dir : Dir)
    → HasDistinctNames dir
    → All (λ f. (lookup f.name dir ≡ some f) × (is_image f ≡ true)) (sort_by_name (images dir))
listed_present dir h =
    sort_by_name-All _ (images dir)
      (images-All (λ f. lookup f.name dir ≡ some f) dir (present dir h))
