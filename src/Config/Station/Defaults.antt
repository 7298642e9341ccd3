-- ===== src/Config/Station/Defaults.antt =====
-- Filling in the defaults of a station once is enough.
use aviationwx_bridge.Prelude.{
  Bool-cases, [], ap, arith, false, inl, inr, refl, true, ℕ, ◌||◌, ◌∙◌, ◌∷◌, ◌≡◌,
}
use aviationwx_bridge.Queue.Names.{Name, name_eq}
use aviationwx_bridge.Config.Values.{Station, positive}
use aviationwx_bridge.Config.Upload.{cons_trim, is_space, trim_end, trim_left, trim_space}
use aviationwx_bridge.Config.Station.{
  davis, default_listen_addr, default_listen_path, ecowitt, interceptor, normalize_station_defaults,
  or_text, wunderground,
}

-- a text that does not begin with a space
abbrev StartsDark : Name → Type 0
StartsDark [] = Unit
StartsDark (c ∷ s) = is_space c ≡ false

trim_left-StartsDark : (s : Name) → StartsDark (trim_left s)
trim_left-StartsDark [] = tt
trim_left-StartsDark (c ∷ s) = elim (Bool-cases (is_space c)) [
  | inl e ↦ rw e (trim_left-StartsDark s)
  | inr e ↦ rw e e
]

trim_left_fixed : (s : Name) → StartsDark s → trim_left s ≡ s
trim_left_fixed [] h = refl
trim_left_fixed (c ∷ s) h = rw h refl

cons_trim-StartsDark : (c : ℕ) (s : Name) → is_space c ≡ false → StartsDark (cons_trim c s)
cons_trim-StartsDark c [] h = rw h h
cons_trim-StartsDark c (d ∷ s) h = h

trim_end-StartsDark : (s : Name) → StartsDark s → StartsDark (trim_end s)
trim_end-StartsDark [] h = tt
trim_end-StartsDark (c ∷ s) h = cons_trim-StartsDark c (trim_end s) h

trim_end-cons : (c : ℕ) (s : Name) → trim_end s ≡ s → trim_end (cons_trim c s) ≡ cons_trim c s
trim_end-cons c [] h = elim (Bool-cases (is_space c)) [ inl e ↦ rw e refl | inr e ↦ rw (e, e) refl ]
trim_end-cons c (d ∷ s) h = ap (λ t. cons_trim c t) h

pub trim_end-trim_end : (s : Name) → trim_end (trim_end s) ≡ trim_end s
trim_end-trim_end [] = refl
trim_end-trim_end (c ∷ s) = trim_end-cons c (trim_end s) (trim_end-trim_end s)

pub trim_space-trim_space : (s : Name) → trim_space (trim_space s) ≡ trim_space s
unfolding trim_space
trim_space-trim_space s =
    ap trim_end (
      trim_left_fixed (trim_end (trim_left s))
        (trim_end-StartsDark (trim_left s) (trim_left-StartsDark s)))
    ∙ trim_end-trim_end (trim_left s)

-- a default that has no space around it
or_text_fixed :
    (default t : Name)
    → trim_space default ≡ default
    → or_text default default ≡ default
    → trim_space t ≡ t
    → or_text (trim_space (or_text t default)) default ≡ or_text t default
or_text_fixed default [] h k e = ap (λ u. or_text u default) h ∙ k
or_text_fixed default (c ∷ s) h k e = ap (λ u. or_text u default) e

filled :
    (default s : Name)
    → trim_space default ≡ default
    → or_text default default ≡ default
    → or_text (trim_space (or_text (trim_space s) default)) default ≡ or_text (trim_space s) default
filled default s h k = or_text_fixed default (trim_space s) h k (trim_space-trim_space s)

normalize_polled :
    (st : Station)
    → (name_eq st.type davis || name_eq st.type ecowitt) ≡ true
    → normalize_station_defaults (normalize_station_defaults st) ≡ normalize_station_defaults st
unfolding normalize_station_defaults
normalize_polled st h = elim (Bool-cases (positive st.poll_interval_seconds)) [
  | inl p ↦ rw (h, p, h, p) refl
  | inr p ↦ rw (h, p, h) refl
]

-- The defaults that are filled in do not change when they are filled in again.
pub normalize_station_defaults_twice :
    (st : Station)
    → normalize_station_defaults (normalize_station_defaults st) ≡ normalize_station_defaults st
unfolding normalize_station_defaults trim_space
normalize_station_defaults_twice st =
    elim (Bool-cases (name_eq st.type davis || name_eq st.type ecowitt)) [
      | inl h ↦ normalize_polled st h
      | inr h ↦ elim (Bool-cases (name_eq st.type interceptor)) [
        | inl i ↦
            rw
              (
                h,
                i,
                h,
                i,
                filled default_listen_addr st.listen_addr refl refl,
                filled default_listen_path st.listen_path refl refl,
                filled wunderground st.dialect refl refl,
              )
              refl
        | inr i ↦ rw (h, i, h, i) refl
      ]
    ]

pub normalize_station_defaults-id : (st : Station) → (normalize_station_defaults st).id ≡ st.id
unfolding normalize_station_defaults
normalize_station_defaults-id st = ground arith
