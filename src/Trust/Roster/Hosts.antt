-- ===== src/Trust/Roster/Hosts.antt =====
-- The lower case and the trimming of a host.
use aviationwx_bridge.Prelude.{Bool-cases, [], ap, inl, inr, refl, sym, ℕ, ◌∙◌, ◌∷◌, ◌≡◌}
use aviationwx_bridge.Queue.Names.{Name}
use aviationwx_bridge.Config.Upload.{
  cons_trim, is_space, lower_case, trim_end, trim_left, trim_space,
}
use aviationwx_bridge.Config.Station.Defaults.{trim_space-trim_space}

-- what `lower` keeps of spaces
lower_case-trim_left :
    (lower : ℕ → ℕ)
    → ((c : ℕ) → is_space (lower c) ≡ is_space c)
    → (s : Name) → trim_left (lower_case lower s) ≡ lower_case lower (trim_left s)
lower_case-trim_left lower h [] = refl
lower_case-trim_left lower h (c ∷ s) = elim (Bool-cases (is_space c)) [
  | inl e ↦ rw (h c, e) (lower_case-trim_left lower h s)
  | inr e ↦ rw (h c, e) refl
]

lower_case-cons_trim :
    (lower : ℕ → ℕ)
    → ((c : ℕ) → is_space (lower c) ≡ is_space c)
    → (c : ℕ) (s : Name)
    → cons_trim (lower c) (lower_case lower s) ≡ lower_case lower (cons_trim c s)
lower_case-cons_trim lower h c [] = elim (Bool-cases (is_space c)) [
  | inl e ↦ rw (h c, e) refl
  | inr e ↦ rw (h c, e) refl
]
lower_case-cons_trim lower h c (d ∷ s) = refl

lower_case-trim_end :
    (lower : ℕ → ℕ)
    → ((c : ℕ) → is_space (lower c) ≡ is_space c)
    → (s : Name) → trim_end (lower_case lower s) ≡ lower_case lower (trim_end s)
lower_case-trim_end lower h [] = refl
lower_case-trim_end lower h (c ∷ s) =
    ap (cons_trim (lower c)) (lower_case-trim_end lower h s)
    ∙ lower_case-cons_trim lower h c (trim_end s)

lower_twice :
    (lower : ℕ → ℕ)
    → ((c : ℕ) → lower (lower c) ≡ lower c)
    → (s : Name) → lower_case lower (lower_case lower s) ≡ lower_case lower s
lower_twice lower h [] = refl
lower_twice lower h (c ∷ s) = rw (h c, lower_twice lower h s) refl

trim_space_twice :
    (u : Name) → trim_end (trim_left (trim_end (trim_left u))) ≡ trim_end (trim_left u)
unfolding trim_space
trim_space_twice u = trim_space-trim_space u

-- the host of an endpoint that is in its form stays as it is
pub host_twice :
    (lower : ℕ → ℕ)
    → ((c : ℕ) → is_space (lower c) ≡ is_space c)
    → ((c : ℕ) → lower (lower c) ≡ lower c)
    → (s : Name)
    → trim_space (lower_case lower (trim_space (lower_case lower s)))
      ≡ trim_space (lower_case lower s)
unfolding trim_space
host_twice lower sp low s =
    let t = lower_case lower s in
    let moved : lower_case lower (trim_end (trim_left t)) ≡ trim_end (trim_left t) =
      sym (lower_case-trim_end lower sp (trim_left t))
      ∙ ap trim_end (sym (lower_case-trim_left lower sp t))
      ∙ ap (λ u. trim_end (trim_left u)) (lower_twice lower low s) in
    ap (λ u. trim_end (trim_left u)) moved ∙ trim_space_twice t
