-- ===== src/Station/Hub/Sorted.antt =====
-- The stations that listen, in the order of their ids.
use aviationwx_bridge.Prelude.{
  Bool, Bool-cases, List, [], ap, false, inl, inr, refl, subst, true, ◌&&◌, ◌∙◌, ◌∷◌, ◌≡◌, ◌⊎◌,
}
use aviationwx_bridge.Queue.Names.{name_eq, name_lt}
use aviationwx_bridge.Config.Values.{Station}
use aviationwx_bridge.Config.Station.{interceptor, normalize_station_defaults}
use aviationwx_bridge.Config.Station.Defaults.{normalize_station_defaults-id}
use aviationwx_bridge.Station.Hub.{insert_station, listening, sort_stations}

abbrev pub IsIn : Station → List Station → Type 0
IsIn st [] = ⊥
IsIn st (t ∷ ts) = (t ≡ st) ⊎ IsIn st ts

abbrev pub IsOther : Station → Station → Type 0
IsOther a b = (name_eq a.id b.id ≡ false) × (name_eq b.id a.id ≡ false)

-- stations of different ids
abbrev pub HasOwnIds : List Station → Type 0
HasOwnIds [] = Unit
HasOwnIds (st ∷ sts) = ((t : Station) → IsIn t sts → IsOther st t) × HasOwnIds sts

insert-IsIn :
    (st t : Station) (ts : List Station) → IsIn t (insert_station st ts) → (st ≡ t) ⊎ IsIn t ts
insert-IsIn st t [] (inl e) = inl e
insert-IsIn st t [] (inr k) = absurd k
insert-IsIn st t (u ∷ us) h = elim (Bool-cases (name_lt u.id st.id)) [
  | inr e ↦ rw e at h
  | inl e ↦ elim (rw e at h) [
    | inl k ↦ inr (inl k)
    | inr k ↦ elim (insert-IsIn st t us k) [ inl s ↦ inl s | inr s ↦ inr (inr s) ]
  ]
]

insert_self : (st : Station) (ts : List Station) → IsIn st (insert_station st ts)
insert_self st [] = inl refl
insert_self st (u ∷ us) = elim (Bool-cases (name_lt u.id st.id)) [
  | inl e ↦ rw e (inr (insert_self st us))
  | inr e ↦ rw e (inl refl)
]

insert-other : (st t : Station) (ts : List Station) → IsIn t ts → IsIn t (insert_station st ts)
insert-other st t [] h = absurd h
insert-other st t (u ∷ us) h = elim (Bool-cases (name_lt u.id st.id)) [
  | inr e ↦ rw e (inr h)
  | inl e ↦ rw e (elim h [ inl k ↦ inl k | inr k ↦ inr (insert-other st t us k) ])
]

IsOther-sym : (a b : Station) → IsOther a b → IsOther b a
IsOther-sym a b (h, k) = (k, h)

insert-HasOwnIds :
    (st : Station) (ts : List Station)
    → ((t : Station) → IsIn t ts → IsOther st t)
    → HasOwnIds ts
    → HasOwnIds (insert_station st ts)
insert-HasOwnIds st [] o h = ((λ t k. absurd k), tt)
insert-HasOwnIds st (u ∷ us) o h = elim (Bool-cases (name_lt u.id st.id)) [
  | inr e ↦ rw e (o, h)
  | inl e ↦ rw e (
    (λ t k. elim (insert-IsIn st t us k) [
      | inl s ↦ subst (IsOther u) s (IsOther-sym st u (o u (inl refl)))
      | inr s ↦ h.0 t s
    ]),
    insert-HasOwnIds st us (λ t k. o t (inr k)) h.1,
  )
]

pub sort-IsIn : (t : Station) (ts : List Station) → IsIn t (sort_stations ts) → IsIn t ts
unfolding sort_stations
sort-IsIn t [] h = h
sort-IsIn t (u ∷ us) h = elim (insert-IsIn u t (sort_stations us) h) [
  | inl e ↦ inl e
  | inr k ↦ inr (sort-IsIn t us k)
]

pub IsIn-sort : (t : Station) (ts : List Station) → IsIn t ts → IsIn t (sort_stations ts)
unfolding sort_stations
IsIn-sort t [] h = absurd h
IsIn-sort t (u ∷ us) (inl e) =
    subst (λ x. IsIn x (insert_station u (sort_stations us))) e (insert_self u (sort_stations us))
IsIn-sort t (u ∷ us) (inr k) = insert-other u t (sort_stations us) (IsIn-sort t us k)

pub sort-HasOwnIds : (ts : List Station) → HasOwnIds ts → HasOwnIds (sort_stations ts)
unfolding sort_stations
sort-HasOwnIds [] h = tt
sort-HasOwnIds (u ∷ us) h =
    insert-HasOwnIds u (sort_stations us) (λ t k. h.0 t (sort-IsIn t us k)) (sort-HasOwnIds us h.1)

abbrev pub listens : Station → Bool
listens st = st.enabled && name_eq st.type interceptor

IsIn-listening :
    (st : Station) (sts : List Station)
    → IsIn st sts
    → listens st ≡ true
    → IsIn (normalize_station_defaults st) (listening sts)
unfolding listening
IsIn-listening st [] h l = absurd h
IsIn-listening st (t ∷ ts) (inl e) l =
    let here : listens t ≡ true = ap listens e ∙ l in
    rw here (inl (ap normalize_station_defaults e))
IsIn-listening st (t ∷ ts) (inr k) l = elim (Bool-cases (listens t)) [
  | inl e ↦ rw e (inr (IsIn-listening st ts k l))
  | inr e ↦ rw e (IsIn-listening st ts k l)
]

-- where a station that listens comes from
abbrev pub ComesFrom : List Station → Station → Type 0
ComesFrom sts u =
    (st : Station) × IsIn st sts × (listens st ≡ true) × (normalize_station_defaults st ≡ u)

later : (t u : Station) (ts : List Station) → ComesFrom ts u → ComesFrom (t ∷ ts) u
later t u ts (st, k, l, e) = (st, inr k, l, e)

listening-ComesFrom : (u : Station) (sts : List Station) → IsIn u (listening sts) → ComesFrom sts u
unfolding listening
listening-ComesFrom u [] h = absurd h
listening-ComesFrom u (t ∷ ts) h = elim (Bool-cases (listens t)) [
  | inl e ↦ elim (rw e at h) [
    | inl k ↦ (t, inl refl, e, k)
    | inr k ↦ later t u ts (listening-ComesFrom u ts k)
  ]
  | inr e ↦ later t u ts (listening-ComesFrom u ts (rw e at h))
]

normal-IsOther :
    (a b : Station)
    → IsOther a b
    → IsOther (normalize_station_defaults a) (normalize_station_defaults b)
normal-IsOther a b h = rw (normalize_station_defaults-id a, normalize_station_defaults-id b) h

listening-HasOwnIds : (sts : List Station) → HasOwnIds sts → HasOwnIds (listening sts)
unfolding listening
listening-HasOwnIds [] h = tt
listening-HasOwnIds (t ∷ ts) h = elim (Bool-cases (listens t)) [
  | inr e ↦ rw e (listening-HasOwnIds ts h.1)
  | inl e ↦ rw e (apart, listening-HasOwnIds ts h.1)
]
  where
    apart : (u : Station) → IsIn u (listening ts) → IsOther (normalize_station_defaults t) u
    apart u k =
        let from = listening-ComesFrom u ts k in
        subst (IsOther (normalize_station_defaults t)) from.3
          (normal-IsOther t from.0 (h.0 from.0 from.1))

-- the stations that the hub is made for
abbrev pub enabled_stations : List Station → List Station
enabled_stations sts = sort_stations (listening sts)

pub enabled_stations-HasOwnIds :
    (sts : List Station) → HasOwnIds sts → HasOwnIds (enabled_stations sts)
enabled_stations-HasOwnIds sts h = sort-HasOwnIds (listening sts) (listening-HasOwnIds sts h)

pub IsIn-enabled_stations :
    (st : Station) (sts : List Station)
    → IsIn st sts
    → listens st ≡ true
    → IsIn (normalize_station_defaults st) (enabled_stations sts)
IsIn-enabled_stations st sts k l =
    IsIn-sort (normalize_station_defaults st) (listening sts) (IsIn-listening st sts k l)

pub enabled_stations-ComesFrom :
    (u : Station) (sts : List Station) → IsIn u (enabled_stations sts) → ComesFrom sts u
enabled_stations-ComesFrom u sts k = listening-ComesFrom u sts (sort-IsIn u (listening sts) k)
