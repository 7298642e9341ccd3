-- ===== src/Queue/Disk/Laws.antt =====
-- Laws of the directory: names that differ, removal, and how many image bytes are left.
use aviationwx_bridge.Prelude.{
  Bool-cases, [], ap, arith, false, if◌then◌else◌, inl, inr, length, none, refl, some, true, ◌+◌,
  ◌∙◌, ◌∷◌, ◌≡◌, ◌⊎◌,
}
use aviationwx_bridge.Queue.Names.{Name, name_eq}
use aviationwx_bridge.Queue.Names.RoundTrip.{name_eq_sound}
use aviationwx_bridge.Queue.Disk.{Dir, Entry, images, is_image, lookup, total, without}

-- no name stands twice
abbrev pub HasDistinctNames : Dir → Type 0
HasDistinctNames [] = Unit
HasDistinctNames (e ∷ dir) = (lookup e.name dir ≡ none) × HasDistinctNames dir

pub name_eq_sym : (a b : Name) → name_eq a b ≡ name_eq b a
name_eq_sym [] [] = refl
name_eq_sym [] (b ∷ bs) = refl
name_eq_sym (a ∷ s) [] = refl
name_eq_sym (a ∷ s) (b ∷ t) = ground (arith, name_eq_sym s t)

-- equal names are equal for every comparison and lookup
name_eq_left : (a b c : Name) → name_eq a b ≡ true → name_eq a c ≡ name_eq b c
name_eq_left a b c h = ap (λ n. name_eq n c) (name_eq_sound a b h)

lookup-eq : (a b : Name) (dir : Dir) → name_eq a b ≡ true → lookup a dir ≡ lookup b dir
lookup-eq a b dir h = ap (λ n. lookup n dir) (name_eq_sound a b h)

pub lookup-without_self : (n : Name) (dir : Dir) → lookup n (without n dir) ≡ none
lookup-without_self n [] = refl
lookup-without_self n (e ∷ dir) = elim (Bool-cases (name_eq e.name n)) [
  | inl h ↦ rw h (lookup-without_self n dir)
  | inr h ↦ rw (h, h) (lookup-without_self n dir)
]

pub lookup-without_ne :
    (n m : Name) (dir : Dir) → name_eq n m ≡ false → lookup m (without n dir) ≡ lookup m dir
lookup-without_ne n m [] h = refl
lookup-without_ne n m (e ∷ dir) h =
    let ih = lookup-without_ne n m dir h in
    elim (Bool-cases (name_eq e.name n)) [
      | inl p ↦ let q : name_eq e.name m ≡ false = name_eq_left e.name n m p ∙ h in rw (p, q) ih
      | inr p ↦ rw p (ap (λ o. if name_eq e.name m then some e else o) ih)
    ]

pub without_absent : (n : Name) (dir : Dir) → lookup n dir ≡ none → without n dir ≡ dir
without_absent n [] h = refl
without_absent n (e ∷ dir) h = elim (Bool-cases (name_eq e.name n)) [
  | inl p ↦ cc (rw p at h)
  | inr p ↦ rw p (ap (λ d. e ∷ d) (without_absent n dir (rw p at h)))
]

pub without-HasDistinctNames :
    (n : Name) (dir : Dir) → HasDistinctNames dir → HasDistinctNames (without n dir)
without-HasDistinctNames n [] h = tt
without-HasDistinctNames n (e ∷ dir) h = elim (Bool-cases (name_eq e.name n)) [
  | inl p ↦ rw p (without-HasDistinctNames n dir h.1)
  | inr p ↦
      rw p (
        lookup-without_ne n e.name dir (rw name_eq_sym p) ∙ h.0,
        without-HasDistinctNames n dir h.1,
      )
]

-- Removing an image that is there takes one image and its bytes away.
pub images-without :
    (n : Name) (dir : Dir) (f : Entry)
    → HasDistinctNames dir
    → lookup n dir ≡ some f
    → is_image f ≡ true
    → (length (images (without n dir)) + 1 ≡ length (images dir))
      × (total (images (without n dir)) + f.size ≡ total (images dir))
images-without n [] f d l i = cc
images-without n (e ∷ dir) f d l i = elim (Bool-cases (name_eq e.name n)) [
  | inl p ↦
      let absent = without_absent n dir (lookup-eq n e.name dir (rw name_eq_sym p) ∙ d.0) in
      let found : some e ≡ some f = rw p at l in
      let same : e ≡ f = cc in
      let image : is_image e ≡ true = ap is_image same ∙ i in
      rw (p, absent, image) (omega arith, omega (arith, ap (λ (x : Entry). x.size) same))
  | inr p ↦
      let ih = images-without n dir f d.1 (rw p at l) i in
      elim (Bool-cases (is_image e)) [
        | inl q ↦ rw (p, q) (omega (arith, ih.0), omega (arith, ih.1))
        | inr q ↦ rw (p, q) ih
      ]
]

-- an entry that is as listed, or gone
abbrev pub Fits : Dir → Entry → Type 0
Fits dir f = (lookup f.name dir ≡ none) ⊎ (lookup f.name dir ≡ some f)

pub Fits-without : (n : Name) (dir : Dir) (f : Entry) → Fits dir f → Fits (without n dir) f
Fits-without n dir f h = elim (Bool-cases (name_eq n f.name)) [
  | inl p ↦ inl (lookup-eq f.name n (without n dir) (rw name_eq_sym p) ∙ lookup-without_self n dir)
  | inr p ↦ rw (lookup-without_ne n f.name dir p) h
]
