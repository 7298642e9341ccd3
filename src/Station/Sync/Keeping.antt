-- ===== src/Station/Sync/Keeping.antt =====
-- Which poll workers are kept when the configuration is read, and that a map stays one.
use aviationwx_bridge.Prelude.{
  Bool-cases, List, Option, [], ap, false, if◌then◌else◌, inl, inr, none, refl, some, subst, sym,
  true, ◌∙◌, ◌∷◌, ◌≡◌,
}
use aviationwx_bridge.Queue.Names.{Name, name_eq}
use aviationwx_bridge.Queue.Names.RoundTrip.{name_eq_sound}
use aviationwx_bridge.Queue.Names.Table.{Table, delete, find, find-delete_self, store}
use aviationwx_bridge.Config.Values.{Station}
use aviationwx_bridge.Station.Sync.{find_station, keep_workers, keeps}

-- a map has one value for each key
abbrev pub IsMap : {A : Type 0} → Table A → Type 0
IsMap [] = Unit
IsMap (p ∷ ps) = (find p.0 ps ≡ none) × IsMap ps

abbrev pub kept : Option Station → Option Station → Option Station
kept none found = none
kept (some w) found = if keeps w found then some w else none

find-keep_workers-none :
    (wanted : List Station) (id : Name) (ps : Table Station)
    → find id ps ≡ none
    → find id (keep_workers wanted ps) ≡ none
unfolding keep_workers
find-keep_workers-none wanted id [] h = refl
find-keep_workers-none wanted id (p ∷ ps) h = elim (Bool-cases (name_eq p.0 id)) [
  | inl e ↦ absurd (cc (rw e at h))
  | inr e ↦
      let ih = find-keep_workers-none wanted id ps (rw e at h) in
      elim (Bool-cases (keeps p.1 (find_station p.0 wanted))) [
        | inl k ↦ rw (k, e) ih
        | inr k ↦ rw k ih
      ]
]

kept_head :
    (wanted : List Station) (id : Name) (p : Name × Station) (ps : Table Station)
    → name_eq p.0 id ≡ true
    → find_station p.0 wanted ≡ find_station id wanted
    → find id (keep_workers wanted ps) ≡ none
    → find id (keep_workers wanted (p ∷ ps)) ≡ kept (some p.1) (find_station id wanted)
unfolding keep_workers
kept_head wanted id p ps e found gone = elim (Bool-cases (keeps p.1 (find_station id wanted))) [
  | inl k ↦ rw (found, k, e) refl
  | inr k ↦ rw (found, k) gone
]

kept_tail :
    (wanted : List Station) (id : Name) (p : Name × Station) (ps : Table Station)
    → name_eq p.0 id ≡ false
    → find id (keep_workers wanted (p ∷ ps)) ≡ find id (keep_workers wanted ps)
unfolding keep_workers
kept_tail wanted id p ps e = elim (Bool-cases (keeps p.1 (find_station p.0 wanted))) [
  | inl k ↦ rw (k, e) refl
  | inr k ↦ rw k refl
]

pub find-keep_workers :
    (wanted : List Station) (id : Name) (ps : Table Station)
    → IsMap ps
    → find id (keep_workers wanted ps) ≡ kept (find id ps) (find_station id wanted)
find-keep_workers wanted id [] h = unfold keep_workers in refl
find-keep_workers wanted id (p ∷ ps) h = elim (Bool-cases (name_eq p.0 id)) [
  | inl e ↦
      let same : p.0 ≡ id = name_eq_sound p.0 id e in
      let gone = find-keep_workers-none wanted id ps (subst (λ n. find n ps ≡ none) same h.0) in
      let here : find id (p ∷ ps) ≡ some p.1 = rw e refl in
      kept_head wanted id p ps e (ap (λ n. find_station n wanted) same) gone
      ∙ ap (λ o. kept o (find_station id wanted)) (sym here)
  | inr e ↦
      let there : find id (p ∷ ps) ≡ find id ps = rw e refl in
      kept_tail wanted id p ps e
      ∙ find-keep_workers wanted id ps h.1
      ∙ ap (λ o. kept o (find_station id wanted)) (sym there)
]

pub keep_workers-IsMap :
    (wanted : List Station) (ps : Table Station) → IsMap ps → IsMap (keep_workers wanted ps)
unfolding keep_workers
keep_workers-IsMap wanted [] h = tt
keep_workers-IsMap wanted (p ∷ ps) h = elim (Bool-cases (keeps p.1 (find_station p.0 wanted))) [
  | inl k ↦ rw k (find-keep_workers-none wanted p.0 ps h.0, keep_workers-IsMap wanted ps h.1)
  | inr k ↦ rw k (keep_workers-IsMap wanted ps h.1)
]

find-delete-none :
    {A : Type 0} (id other : Name) (ps : Table A)
    → find other ps ≡ none
    → find other (delete id ps) ≡ none
find-delete-none id other [] h = refl
find-delete-none id other (p ∷ ps) h = elim (Bool-cases (name_eq p.0 other)) [
  | inl e ↦ absurd (cc (rw e at h))
  | inr e ↦
      let ih = find-delete-none id other ps (rw e at h) in
      elim (Bool-cases (name_eq p.0 id)) [ inl d ↦ rw d ih | inr d ↦ rw (d, e) ih ]
]

delete-IsMap : {A : Type 0} (id : Name) (ps : Table A) → IsMap ps → IsMap (delete id ps)
delete-IsMap id [] h = tt
delete-IsMap id (p ∷ ps) h = elim (Bool-cases (name_eq p.0 id)) [
  | inl e ↦ rw e (delete-IsMap id ps h.1)
  | inr e ↦ rw e (find-delete-none id p.0 ps h.0, delete-IsMap id ps h.1)
]

pub store-IsMap : {A : Type 0} (id : Name) (a : A) (ps : Table A) → IsMap ps → IsMap (store id a ps)
store-IsMap id a ps h = (find-delete_self id ps, delete-IsMap id ps h)
