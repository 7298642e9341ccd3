-- ===== src/Queue/Names/Table.antt =====
-- A Go map whose keys are ids, as a list of pairs without double keys.
use aviationwx_bridge.Prelude.{
  Bool-cases, List, Option, [], ap, false, if◌then◌else◌, inl, inr, none, refl, some, ◌∙◌, ◌∷◌, ◌≡◌,
}
use aviationwx_bridge.Queue.Names.{Name, name_eq}
use aviationwx_bridge.Queue.Names.RoundTrip.{name_eq_refl, name_eq_sound}

abbrev pub Table {ℓ} : Type ℓ → Type ℓ
Table A = List (Name × A)

module _ {ℓ} {A : Type ℓ} where
  abbrev pub find : Name → Table A → Option A
  find id [] = none
  find id (p ∷ ps) = let rest = find id ps in if name_eq p.0 id then some p.1 else rest

  -- `delete` on the map
  abbrev pub delete : Name → Table A → Table A
  delete id [] = []
  delete id (p ∷ ps) = let rest = delete id ps in if name_eq p.0 id then rest else p ∷ rest

  -- an assignment to the map
  abbrev pub store : Name → A → Table A → Table A
  store id a ps = (id, a) ∷ delete id ps

  pub find-delete_self : (id : Name) (ps : Table A) → find id (delete id ps) ≡ none
  find-delete_self id [] = refl
  find-delete_self id (p ∷ ps) = elim (Bool-cases (name_eq p.0 id)) [
    | inl e ↦ rw e (find-delete_self id ps)
    | inr e ↦ rw (e, e) (find-delete_self id ps)
  ]

  pub find-delete_other :
      (id other : Name) (ps : Table A)
      → name_eq id other ≡ false
      → find other (delete id ps) ≡ find other ps
  find-delete_other id other [] h = refl
  find-delete_other id other (p ∷ ps) h =
      let ih = find-delete_other id other ps h in
      elim (Bool-cases (name_eq p.0 id)) [
        | inl e ↦
            let differs : name_eq p.0 other ≡ false =
              ap (λ n. name_eq n other) (name_eq_sound p.0 id e) ∙ h in
            rw (e, differs) ih
        | inr e ↦ rw e (ap (λ r. if name_eq p.0 other then some p.1 else r) ih)
      ]

  pub find-store_self : (id : Name) (a : A) (ps : Table A) → find id (store id a ps) ≡ some a
  find-store_self id a ps = rw (name_eq_refl id) refl

  pub find-store_other :
      (id other : Name) (a : A) (ps : Table A)
      → name_eq id other ≡ false
      → find other (store id a ps) ≡ find other ps
  find-store_other id other a ps h = rw h (find-delete_other id other ps h)
