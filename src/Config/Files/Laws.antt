-- ===== src/Config/Files/Laws.antt =====
-- Names of files, their extensions, and what is found after a write or a removal.
use aviationwx_bridge.Prelude.{
  All, Bool-cases, Option, [], ap, arith, false, if◌then◌else◌, inl, inr, length-append, none, refl,
  some, sym, ℕ, ◌++◌, ◌∙◌, ◌∷◌, ◌≡◌, ◌⊎◌,
}
use aviationwx_bridge.Queue.Names.{Name, name_eq, name_lt}
use aviationwx_bridge.Queue.Names.RoundTrip.{name_eq_longer, name_eq_refl, name_eq_sound}
use aviationwx_bridge.Queue.Disk.Laws.{name_eq_sym}
use aviationwx_bridge.Config.Files.{
  File, Files, Paths, bak, contained_config_path, drop_file, ext, ext_or, find_file, insert_file,
  json, put_file,
}

ext_or_nonempty : (c : ℕ) (s : Name) (d : ℕ) (e t : Name) → t ≡ d ∷ e → ext_or c s t ≡ d ∷ e
ext_or_nonempty c s d e t h = rw h refl

-- in front of a text with a dot the extension stays
ext-append : (s t : Name) (d : ℕ) (e : Name) → ext t ≡ d ∷ e → ext (s ++ t) ≡ d ∷ e
unfolding ext
ext-append [] t d e h = h
ext-append (c ∷ s) t d e h = ext_or_nonempty c (s ++ t) d e (ext (s ++ t)) (ext-append s t d e h)

pub ext-json : (s : Name) → ext (s ++ json) ≡ json
unfolding ext
ext-json s = ext-append s json b'.' _ refl

pub ext-bak : (s : Name) → ext (s ++ bak) ≡ bak
unfolding ext
ext-bak s = ext-append s bak b'.' _ refl

pub name_eq-append : (s t u : Name) → name_eq (s ++ u) (t ++ u) ≡ name_eq s t
name_eq-append [] [] u = name_eq_refl u
name_eq-append [] (b ∷ t) u =
    name_eq_sym u (b ∷ (t ++ u))
    ∙ name_eq_longer (b ∷ (t ++ u)) u (omega (arith, length-append t u))
name_eq-append (a ∷ s) [] u = name_eq_longer (a ∷ (s ++ u)) u (omega (arith, length-append s u))
name_eq-append (a ∷ s) (b ∷ t) u = rw (name_eq-append s t u) refl

-- a name with another extension is another name
pub differs_by_ext : (s t : Name) → name_eq (ext s) (ext t) ≡ false → name_eq s t ≡ false
differs_by_ext s t h = elim (Bool-cases (name_eq s t)) [
  | inr e ↦ e
  | inl e ↦
      absurd (
        cc (sym h ∙ ap (λ r. name_eq (ext r) (ext t)) (name_eq_sound s t e) ∙ name_eq_refl (ext t)))
]

-- the path of an id is the id with the extension, or an error
pub contained_config_path-cases :
    (paths : Paths) (id : Name)
    → (contained_config_path paths id ≡ none) ⊎ (contained_config_path paths id ≡ some (id ++ json))
unfolding contained_config_path
contained_config_path-cases paths id = ground arith

module _ {J : Type 0} where
  -- what a file of that name holds; a directory holds no text
  abbrev pub find_text : Name → Files J → Option J
  find_text n [] = none
  find_text n (f ∷ fs) =
      let rest = find_text n fs in
      if f.is_dir then rest else if name_eq f.name n then some f.content else rest

  -- the files after a first one decide
  at_head :
      (f : File J) (n : Name) {r s : Option J}
      → r ≡ s
      → (if f.is_dir then r else if name_eq f.name n then some f.content else r)
        ≡ (if f.is_dir then s else if name_eq f.name n then some f.content else s)
  at_head f n h = ap (λ t. if f.is_dir then t else if name_eq f.name n then some f.content else t) h

  find_text-insert_other :
      (new : File J) (other : Name) (fs : Files J)
      → name_eq new.name other ≡ false
      → find_text other (insert_file new fs) ≡ find_text other fs
  find_text-insert_other new other [] h = elim (Bool-cases new.is_dir) [
    | inl d ↦ rw d refl
    | inr d ↦ rw (d, h) refl
  ]
  find_text-insert_other new other (f ∷ fs) h = elim (Bool-cases (name_lt new.name f.name)) [
    | inl l ↦ elim (Bool-cases new.is_dir) [ inl d ↦ rw (l, d) refl | inr d ↦ rw (l, d, h) refl ]
    | inr l ↦ rw l (at_head f other (find_text-insert_other new other fs h))
  ]

  find_text-insert_self :
      (n : Name) (c : J) (fs : Files J)
      → find_text n fs ≡ none
      → find_text n (insert_file (record { name = n; is_dir = false; content = c }) fs) ≡ some c
  find_text-insert_self n c [] h = rw (name_eq_refl n) refl
  find_text-insert_self n c (f ∷ fs) h = elim (Bool-cases (name_lt n f.name)) [
    | inl l ↦ rw (l, name_eq_refl n) refl
    | inr l ↦ elim (Bool-cases f.is_dir) [
      | inl d ↦ rw (l, d) (find_text-insert_self n c fs (rw d at h))
      | inr d ↦ elim (Bool-cases (name_eq f.name n)) [
        | inl e ↦ absurd (cc (rw (d, e) at h))
        | inr e ↦ rw (l, d, e) (find_text-insert_self n c fs (rw (d, e) at h))
      ]
    ]
  ]

  find_text-drop_self : (n : Name) (fs : Files J) → find_text n (drop_file n fs) ≡ none
  find_text-drop_self n [] = refl
  find_text-drop_self n (f ∷ fs) = elim (Bool-cases (name_eq f.name n)) [
    | inl e ↦ rw e (find_text-drop_self n fs)
    | inr e ↦ elim (Bool-cases f.is_dir) [
      | inl d ↦ rw (e, d) (find_text-drop_self n fs)
      | inr d ↦ rw (e, d, e) (find_text-drop_self n fs)
    ]
  ]

  pub find_text-drop_other :
      (n other : Name) (fs : Files J)
      → name_eq n other ≡ false
      → find_text other (drop_file n fs) ≡ find_text other fs
  find_text-drop_other n other [] h = refl
  find_text-drop_other n other (f ∷ fs) h =
      let ih = find_text-drop_other n other fs h in
      elim (Bool-cases (name_eq f.name n)) [
        | inl e ↦
            let differs : name_eq f.name other ≡ false =
              ap (λ m. name_eq m other) (name_eq_sound f.name n e) ∙ h in
            elim (Bool-cases f.is_dir) [ inl d ↦ rw (e, d) ih | inr d ↦ rw (e, d, differs) ih ]
        | inr e ↦ rw e (at_head f other ih)
      ]

  pub find_text-put_self :
      (n : Name) (c : J) (fs : Files J) → find_text n (put_file n c fs) ≡ some c
  find_text-put_self n c fs = find_text-insert_self n c (drop_file n fs) (find_text-drop_self n fs)

  pub find_text-put_other :
      (n other : Name) (c : J) (fs : Files J)
      → name_eq n other ≡ false
      → find_text other (put_file n c fs) ≡ find_text other fs
  find_text-put_other n other c fs h =
      find_text-insert_other (record { name = n; is_dir = false; content = c }) other
        (drop_file n fs) h
      ∙ find_text-drop_other n other fs h

  module _ {ℓ} (P : File J → Type ℓ) where
    pub All-drop_file :
        (n : Name) (fs : Files J)
        → All P fs
        → All (λ f. P f × (name_eq f.name n ≡ false)) (drop_file n fs)
    All-drop_file n [] h = tt
    All-drop_file n (f ∷ fs) h = elim (Bool-cases (name_eq f.name n)) [
      | inl e ↦ rw e (All-drop_file n fs h.1)
      | inr e ↦ rw e ((h.0, e), All-drop_file n fs h.1)
    ]

    pub All-insert_file :
        (new : File J) (fs : Files J) → P new → All P fs → All P (insert_file new fs)
    All-insert_file new [] p h = (p, tt)
    All-insert_file new (f ∷ fs) p h = elim (Bool-cases (name_lt new.name f.name)) [
      | inl e ↦ rw e (p, h)
      | inr e ↦ rw e (h.0, All-insert_file new fs p h.1)
    ]

  pub drop_absent_file : (n : Name) (fs : Files J) → find_file n fs ≡ none → drop_file n fs ≡ fs
  drop_absent_file n [] h = refl
  drop_absent_file n (f ∷ fs) h = elim (Bool-cases (name_eq f.name n)) [
    | inl e ↦ absurd (cc (rw e at h))
    | inr e ↦ rw e (ap (λ gs. f ∷ gs) (drop_absent_file n fs (rw e at h)))
  ]
