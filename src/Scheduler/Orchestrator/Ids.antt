-- ===== src/Scheduler/Orchestrator/Ids.antt =====
-- The ids of three maps and a list after a camera is added or removed.
use aviationwx_bridge.Prelude.{
  Bool, Bool-cases, List, [], ap, arith, false, inl, inr, none, refl, subst, suc, sym, true, ℕ,
  ◌++◌, ◌+◌, ◌∙◌, ◌∷◌, ◌≡◌, ◌≤◌,
}
use aviationwx_bridge.Queue.Names.{Name, is_some, name_eq}
use aviationwx_bridge.Queue.Names.RoundTrip.{name_eq_sound}
use aviationwx_bridge.Queue.Names.Table.{
  Table, delete, find, find-delete_other, find-delete_self, store,
}
use aviationwx_bridge.Queue.State.{Queue}
use aviationwx_bridge.Queue.Manager.{Queues}
use aviationwx_bridge.Scheduler.Upload.{Camera, Cameras, remove_first}
use aviationwx_bridge.Scheduler.Orchestrator.{Worker}
use aviationwx_bridge.Scheduler.Orchestrator.Operations.{HasSameIds, SameKeys, occurrences, one_if}

-- the ids after a camera is added, and after one is removed
occurrences-append :
    (id n : Name) (ns : List Name)
    → occurrences id (ns ++ (n ∷ [])) ≡ occurrences id ns + one_if (name_eq n id)
occurrences-append id n [] = elim (Bool-cases (name_eq n id)) [
  | inl e ↦ rw e refl
  | inr e ↦ rw e refl
]
occurrences-append id n (m ∷ ns) = elim (Bool-cases (name_eq m id)) [
  | inl e ↦ rw e (omega (arith, occurrences-append id n ns))
  | inr e ↦ rw e (occurrences-append id n ns)
]

pub added-HasSameIds :
    (id : Name) (w : Worker) (q : Queue) (c : Camera) (ws : Table Worker) (qs : Queues)
    (cs : Cameras) (order : List Name)
    → find id qs ≡ none
    → HasSameIds ws qs cs order
    → HasSameIds (store id w ws) ((id, q) ∷ qs) (store id c cs) (order ++ (id ∷ []))
added-HasSameIds id w q c ws qs cs order f h other =
    let k = h other in
    elim (Bool-cases (name_eq id other)) [
      | inl e ↦
          let was_free : find other qs ≡ none =
            subst (λ i. find i qs ≡ none) (name_eq_sound id other e) f in
          let none_there : occurrences other order ≡ 0 =
            k.2 ∙ ap one_if (sym k.0 ∙ ap is_some was_free) in
          rw e (refl, refl, occurrences-append other id order ∙ rw (e, none_there) refl)
      | inr e ↦
          rw (e, find-delete_other id other ws e, find-delete_other id other cs e)
            (k.0, k.1, occurrences-append other id order ∙ rw e (omega (arith, k.2)))
    ]

removed_first :
    (id other : Name) (ns : List Name)
    → name_eq id other ≡ false
    → occurrences other (remove_first id ns) ≡ occurrences other ns
removed_first id other [] h = refl
removed_first id other (n ∷ ns) h = elim (Bool-cases (name_eq n id)) [
  | inl e ↦
      let apart : name_eq n other ≡ false = ap (λ m. name_eq m other) (name_eq_sound n id e) ∙ h in
      rw (e, apart) refl
  | inr e ↦ elim (Bool-cases (name_eq n other)) [
    | inl f ↦ rw (e, f) (ap suc (removed_first id other ns h))
    | inr f ↦ rw (e, f) (removed_first id other ns h)
  ]
]

once_less : (n : ℕ) → suc n ≤ 1 → n ≡ 0
once_less n h = omega arith

one_if_le : (b : Bool) → one_if b ≤ 1
one_if_le true = omega arith
one_if_le false = omega arith

removed_first_self :
    (id : Name) (ns : List Name) → occurrences id ns ≤ 1 → occurrences id (remove_first id ns) ≡ 0
removed_first_self id [] h = refl
removed_first_self id (n ∷ ns) h = elim (Bool-cases (name_eq n id)) [
  | inl e ↦ rw e (once_less (occurrences id ns) (rw e at h))
  | inr e ↦ rw (e, e) (removed_first_self id ns (rw e at h))
]

-- what is to be shown of one id after the removal of another
abbrev IsGone : Name → Name → Table Worker → Queues → Cameras → List Name → Type 0
IsGone other id ws qs cs order =
    (is_some (find other (delete id qs)) ≡ is_some (find other (delete id ws)))
    × (is_some (find other (delete id cs)) ≡ is_some (find other (delete id ws)))
    × (occurrences other (remove_first id order) ≡ one_if (is_some (find other (delete id ws))))

pub removed-HasSameIds :
    (id : Name) (ws : Table Worker) (qs : Queues) (cs : Cameras) (order : List Name)
    → HasSameIds ws qs cs order
    → HasSameIds (delete id ws) (delete id qs) (delete id cs) (remove_first id order)
removed-HasSameIds id ws qs cs order h other = elim (Bool-cases (name_eq id other)) [
  | inl e ↦
      subst (λ i. IsGone i id ws qs cs order) (name_eq_sound id other e)
        (rw (find-delete_self id ws, find-delete_self id qs, find-delete_self id cs)
          (
            refl,
            refl,
            removed_first_self id order
                (subst (λ n. n ≤ 1) (sym (h id).2) (one_if_le (is_some (find id ws)))),
          ))
  | inr e ↦
      let k = h other in
      rw
        (
          find-delete_other id other ws e,
          find-delete_other id other qs e,
          find-delete_other id other cs e,
        )
        (k.0, k.1, removed_first id other order e ∙ k.2)
]

pub missing-SameKeys :
    {A : Type 0} (id : Name) (ps : Table A) → find id ps ≡ none → SameKeys ps (delete id ps)
missing-SameKeys id ps h other = elim (Bool-cases (name_eq id other)) [
  | inl e ↦
      subst (λ i. is_some (find i ps) ≡ is_some (find i (delete id ps))) (name_eq_sound id other e)
        (ap is_some h ∙ sym (ap is_some (find-delete_self id ps)))
  | inr e ↦ ap is_some (sym (find-delete_other id other ps e))
]
