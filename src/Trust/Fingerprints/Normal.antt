-- ===== src/Trust/Fingerprints/Normal.antt =====
-- A fingerprint that is in its normal form stays as it is, and so does a list of them.
use aviationwx_bridge.Prelude.{
  Bool-cases, List, Option-cases, [], ap, arith, false, inl, inr, length, none, refl, some, subst,
  suc, zero, ℕ, ◌++◌, ◌+◌, ◌==◌, ◌∙◌, ◌∷◌, ◌≡◌, ◌≤◌,
}
use aviationwx_bridge.Queue.Names.{Name, name_eq}
use aviationwx_bridge.Config.Upload.{cons_trim, is_space, trim_end, trim_left, trim_space}
use aviationwx_bridge.Config.Station.Defaults.{trim_end-trim_end, trim_space-trim_space}
use aviationwx_bridge.Trust.Fingerprints.{
  after_prefix, is_in, normalize_fingerprint, normalize_fingerprint_list, normalize_loop,
  prefix_loop, sha256_prefix, upper, with_prefix,
}

length-trim_left : (s : Name) → length (trim_left s) ≤ length s
length-trim_left [] = omega arith
length-trim_left (c ∷ s) = elim (Bool-cases (is_space c)) [
  | inl e ↦ rw e (let ih = length-trim_left s in omega (arith, ih))
  | inr e ↦ rw e (let ih = length-trim_left s in omega (arith, ih))
]

length-cons_trim : (c : ℕ) (s : Name) → length (cons_trim c s) ≤ 1 + length s
length-cons_trim c [] = elim (Bool-cases (is_space c)) [
  | inl e ↦ rw e (omega arith)
  | inr e ↦ rw e (omega arith)
]
length-cons_trim c (d ∷ s) = omega arith

length-trim_end : (s : Name) → length (trim_end s) ≤ length s
length-trim_end [] = omega arith
length-trim_end (c ∷ s) =
    let ih = length-trim_end s in let h = length-cons_trim c (trim_end s) in omega (arith, ih, h)

length-trim_space : (s : Name) → length (trim_space s) ≤ length s
unfolding trim_space
length-trim_space s =
    let h = length-trim_end (trim_left s) in let k = length-trim_left s in omega (arith, h, k)

after_prefix_shorter : (p s r : Name) → after_prefix p s ≡ some r → length r + length p ≡ length s
after_prefix_shorter [] s r h = let e : s ≡ r = cc h in rw e (omega arith)
after_prefix_shorter (p ∷ ps) [] r h = absurd (cc h)
after_prefix_shorter (p ∷ ps) (c ∷ s) r h = elim (Bool-cases (upper c == p)) [
  | inl e ↦ let ih = after_prefix_shorter ps s r (rw e at h) in omega (arith, ih)
  | inr e ↦ absurd (cc (rw e at h))
]

-- the fuel is enough
prefix_loop_done :
    (fuel : ℕ) (fp : Name)
    → length fp ≤ fuel
    → after_prefix sha256_prefix (prefix_loop fuel fp) ≡ none
unfolding prefix_loop
prefix_loop_done zero [] h = refl
prefix_loop_done zero (c ∷ s) h = absurd (omega (arith, h))
prefix_loop_done (suc fuel) fp h = elim (Option-cases (after_prefix sha256_prefix fp)) [
  | inl e ↦ rw (e, e) refl
  | inr (r, e) ↦ rw e (
      let shorter = after_prefix_shorter sha256_prefix fp r e in
      let trimmed = length-trim_space r in
      prefix_loop_done fuel (trim_space r) (omega (arith, shorter, trimmed, h)))
]

prefix_loop_trimmed :
    (fuel : ℕ) (fp : Name)
    → trim_space fp ≡ fp
    → trim_space (prefix_loop fuel fp) ≡ prefix_loop fuel fp
unfolding prefix_loop
prefix_loop_trimmed zero fp h = h
prefix_loop_trimmed (suc fuel) fp h = elim (Option-cases (after_prefix sha256_prefix fp)) [
  | inl e ↦ rw e h
  | inr (r, e) ↦ rw e (prefix_loop_trimmed fuel (trim_space r) (trim_space-trim_space r))
]

prefix_loop_fixed :
    (fuel : ℕ) (fp : Name) → after_prefix sha256_prefix fp ≡ none → prefix_loop fuel fp ≡ fp
unfolding prefix_loop
prefix_loop_fixed zero fp h = refl
prefix_loop_fixed (suc fuel) fp h = rw h refl

trimmed_end : (s : Name) → trim_space s ≡ s → trim_end s ≡ s
unfolding trim_space
trimmed_end s h = subst (λ t. trim_end t ≡ t) h (trim_end-trim_end (trim_left s))

-- the prefix ends in no space, so it is kept
trim_space-prefix :
    (c : ℕ) (s : Name)
    → trim_space (c ∷ s) ≡ c ∷ s
    → trim_space (sha256_prefix ++ (c ∷ s)) ≡ sha256_prefix ++ (c ∷ s)
unfolding trim_space
trim_space-prefix c s h = rw (trimmed_end (c ∷ s) h) refl

prefix_loop-prefix :
    (fuel : ℕ) (b : Name)
    → trim_space b ≡ b
    → after_prefix sha256_prefix b ≡ none
    → prefix_loop (suc fuel) (sha256_prefix ++ b) ≡ b
unfolding prefix_loop
prefix_loop-prefix fuel b h k = ap (prefix_loop fuel) h ∙ prefix_loop_fixed fuel b k

empty_fixed : normalize_fingerprint [] ≡ []
unfolding normalize_fingerprint trim_space prefix_loop
empty_fixed = refl

-- the form of a fingerprint after normalizing: no prefix but the one
fixed_body :
    (b : Name)
    → trim_space b ≡ b
    → after_prefix sha256_prefix b ≡ none
    → normalize_fingerprint (with_prefix b) ≡ with_prefix b
unfolding normalize_fingerprint
fixed_body [] h k = empty_fixed
fixed_body (c ∷ s) h k =
    ap (λ t. with_prefix (prefix_loop (length t) t)) (trim_space-prefix c s h)
    ∙ ap with_prefix (prefix_loop-prefix _ (c ∷ s) h k)

normalize_fingerprint-normalize_fingerprint :
    (fp : Name) → normalize_fingerprint (normalize_fingerprint fp) ≡ normalize_fingerprint fp
unfolding normalize_fingerprint
normalize_fingerprint-normalize_fingerprint fp =
    let trimmed = trim_space fp in
    fixed_body (prefix_loop (length trimmed) trimmed)
      (prefix_loop_trimmed (length trimmed) trimmed (trim_space-trim_space fp))
      (prefix_loop_done (length trimmed) trimmed (omega arith))

-- a list in normal form: its fingerprints are, and none is empty, or among those seen before
abbrev pub IsNormal : List Name → List Name → Type 0
IsNormal seen [] = Unit
IsNormal seen (fp ∷ fps) =
    (normalize_fingerprint fp ≡ fp)
    × (name_eq fp [] ≡ false)
    × (is_in fp seen ≡ false)
    × IsNormal (fp ∷ seen) fps

pub normalize_loop-IsNormal : (seen fps : List Name) → IsNormal seen (normalize_loop seen fps)
unfolding normalize_loop
normalize_loop-IsNormal seen [] = tt
normalize_loop-IsNormal seen (fp ∷ fps) =
    elim (Bool-cases (name_eq (normalize_fingerprint fp) [])) [
      | inl e ↦ rw e (normalize_loop-IsNormal seen fps)
      | inr e ↦ elim (Bool-cases (is_in (normalize_fingerprint fp) seen)) [
        | inl f ↦ rw (e, f) (normalize_loop-IsNormal seen fps)
        | inr f ↦
            rw (e, f)
              (
                normalize_fingerprint-normalize_fingerprint fp,
                e,
                f,
                normalize_loop-IsNormal (normalize_fingerprint fp ∷ seen) fps,
              )
      ]
    ]

normalize_loop_fixed : (seen fps : List Name) → IsNormal seen fps → normalize_loop seen fps ≡ fps
unfolding normalize_loop
normalize_loop_fixed seen [] h = refl
normalize_loop_fixed seen (fp ∷ fps) (n, e, f, h) =
    rw (n, e, f) (ap (λ t. fp ∷ t) (normalize_loop_fixed (fp ∷ seen) fps h))

pub normalize_list-normalize_list :
    (fps : List Name)
    → normalize_fingerprint_list (normalize_fingerprint_list fps) ≡ normalize_fingerprint_list fps
normalize_list-normalize_list fps =
    normalize_loop_fixed [] (normalize_loop [] fps) (normalize_loop-IsNormal [] fps)
