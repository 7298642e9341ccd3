-- ===== src/Station/Sync/Workers.antt =====
-- Which workers are kept and started when the configuration is read.
use aviationwx_bridge.Prelude.{
  Bool, Bool-cases, List, Option, [], ap, false, if◌then◌else◌, inl, inr, none, refl, some, subst,
  true, ◌∙◌, ◌∷◌, ◌≡◌,
}
use aviationwx_bridge.Queue.Names.{Name, name_eq}
use aviationwx_bridge.Queue.Names.RoundTrip.{name_eq_sound}
use aviationwx_bridge.Queue.Names.Table.{Table, find, find-store_other, find-store_self}
use aviationwx_bridge.Config.Values.{Station}
use aviationwx_bridge.Config.Station.{davis, ecowitt, interceptor}
use aviationwx_bridge.Station.Hub.Sorted.{listens}
use aviationwx_bridge.Station.Sync.{
  find_station, has_provider, keeps, same_poll_config, should_run_poll_worker, start_if,
  start_worker, sync_worker, sync_workers,
}
use aviationwx_bridge.Station.Sync.Keeping.{IsMap, kept, store-IsMap}

-- the configuration has one station for each id
abbrev pub HasDistinctIds : List Station → Type 0
HasDistinctIds [] = Unit
HasDistinctIds (st ∷ sts) = (find_station st.id sts ≡ none) × HasDistinctIds sts

-- what runs for an id, by what ran before and what the configuration has for it
abbrev pub running_or_new : Station → Option Station → Station
running_or_new st none = st
running_or_new st (some w) = if same_poll_config w st then w else st

abbrev pub worker_for : Option Station → Option Station → Option Station
worker_for old none = none
worker_for old (some st) = if should_run_poll_worker st then some (running_or_new st old) else none

abbrev pub started : Option Station → Option Station → Option Station
started w none = w
started none (some st) = if should_run_poll_worker st then some st else none
started (some w) (some st) = some w

-- a station that should be polled is one that is asked for its data
polled_type :
    (st : Station)
    → should_run_poll_worker st ≡ true
    → (st.enabled ≡ true) × (has_provider st.type ≡ true) × (name_eq st.type interceptor ≡ false)
unfolding should_run_poll_worker
polled_type st h = elim (Bool-cases st.enabled) [
  | inr e ↦ absurd (cc (rw e at h))
  | inl e ↦ elim (Bool-cases (name_eq st.type davis)) [
    | inl d ↦ (e, rw d refl, ap (λ t. name_eq t interceptor) (name_eq_sound st.type davis d))
    | inr d ↦ elim (Bool-cases (name_eq st.type ecowitt)) [
      | inl w ↦
          (e, rw (d, w) refl, ap (λ t. name_eq t interceptor) (name_eq_sound st.type ecowitt w))
      | inr w ↦ absurd (cc (rw (e, d, w) at h))
    ]
  ]
]

start_worker_self :
    (st : Station) (w : Option Station) (ws : Table Station)
    → find st.id ws ≡ w
    → should_run_poll_worker st ≡ true
    → find st.id (start_worker st w ws) ≡ started w (some st)
start_worker_self st none ws h r = rw ((polled_type st r).1, r) (find-store_self st.id st ws)
start_worker_self st (some w) ws h r = h

not_started :
    (st : Station) (w : Option Station)
    → should_run_poll_worker st ≡ false
    → w ≡ started w (some st)
not_started st none r = rw r refl
not_started st (some w) r = refl

start_if_not :
    (enabled listens : Bool) (ws starting : Table Station)
    → start_if enabled listens false ws starting ≡ ws
start_if_not true true ws starting = refl
start_if_not true false ws starting = refl
start_if_not false listens ws starting = refl

sync_worker_self :
    (st : Station) (ws : Table Station)
    → find st.id (sync_worker st ws) ≡ started (find st.id ws) (some st)
unfolding sync_worker
sync_worker_self st ws =
    let starting = start_worker st (find st.id ws) ws in
    elim (Bool-cases (should_run_poll_worker st)) [
      | inl r ↦
          let t = polled_type st r in
          ap
            (λ b.
              find st.id
                (start_if b (name_eq st.type interceptor) (should_run_poll_worker st) ws starting))
            t.0
          ∙ ap (λ b. find st.id (start_if true b (should_run_poll_worker st) ws starting)) t.2
          ∙ ap (λ b. find st.id (start_if true false b ws starting)) r
          ∙ start_worker_self st (find st.id ws) ws refl r
      | inr r ↦
          ap (λ b. find st.id (start_if st.enabled (name_eq st.type interceptor) b ws starting)) r
          ∙ ap (find st.id) (start_if_not st.enabled (name_eq st.type interceptor) ws starting)
          ∙ not_started st (find st.id ws) r
    ]

start_worker_other :
    (st : Station) (w : Option Station) (ws : Table Station) (id : Name)
    → name_eq st.id id ≡ false
    → find id (start_worker st w ws) ≡ find id ws
start_worker_other st (some w) ws id d = refl
start_worker_other st none ws id d = elim (Bool-cases (has_provider st.type)) [
  | inl h ↦ rw h (find-store_other st.id id st ws d)
  | inr h ↦ rw h refl
]

find-start_if :
    (a b c : Bool) (id : Name) (ws starting : Table Station)
    → find id starting ≡ find id ws
    → find id (start_if a b c ws starting) ≡ find id ws
find-start_if false b c id ws starting h = refl
find-start_if true true c id ws starting h = refl
find-start_if true false false id ws starting h = refl
find-start_if true false true id ws starting h = h

sync_worker_other :
    (st : Station) (ws : Table Station) (id : Name)
    → name_eq st.id id ≡ false
    → find id (sync_worker st ws) ≡ find id ws
unfolding sync_worker
sync_worker_other st ws id d =
    find-start_if st.enabled (name_eq st.type interceptor) (should_run_poll_worker st) id ws
      (start_worker st (find st.id ws) ws) (start_worker_other st (find st.id ws) ws id d)

sync_workers_absent :
    (sts : List Station) (ws : Table Station) (id : Name)
    → find_station id sts ≡ none
    → find id (sync_workers sts ws) ≡ find id ws
unfolding sync_workers
sync_workers_absent [] ws id h = refl
sync_workers_absent (st ∷ sts) ws id h = elim (Bool-cases (name_eq st.id id)) [
  | inl e ↦ absurd (cc (rw e at h))
  | inr e ↦
      sync_workers_absent sts (sync_worker st ws) id (rw e at h) ∙ sync_worker_other st ws id e
]

pub find-sync_workers :
    (sts : List Station) (ws : Table Station) (id : Name)
    → HasDistinctIds sts
    → find id (sync_workers sts ws) ≡ started (find id ws) (find_station id sts)
unfolding sync_workers
find-sync_workers [] ws id h = refl
find-sync_workers (st ∷ sts) ws id h = elim (Bool-cases (name_eq st.id id)) [
  | inl e ↦
      let same : st.id ≡ id = name_eq_sound st.id id e in
      rw e (
        sync_workers_absent sts (sync_worker st ws) id
          (subst (λ n. find_station n sts ≡ none) same h.0)
        ∙ subst (λ n. find n (sync_worker st ws) ≡ started (find n ws) (some st)) same
            (sync_worker_self st ws))
  | inr e ↦ rw e (
      find-sync_workers sts (sync_worker st ws) id h.1
      ∙ ap (λ w. started w (find_station id sts)) (sync_worker_other st ws id e))
]

pub started-kept :
    (old found : Option Station) → started (kept old found) found ≡ worker_for old found
unfolding keeps
started-kept none none = refl
started-kept (some w) none = refl
started-kept none (some st) = elim (Bool-cases (should_run_poll_worker st)) [
  | inl r ↦ rw r refl
  | inr r ↦ rw r refl
]
started-kept (some w) (some st) = elim (Bool-cases (should_run_poll_worker st)) [
  | inr r ↦ rw (r, r) refl
  | inl r ↦ elim (Bool-cases (same_poll_config w st)) [
    | inl s ↦ rw (r, s) refl
    | inr s ↦ rw (r, s, r) refl
  ]
]

sync_worker-IsMap : (st : Station) (ws : Table Station) → IsMap ws → IsMap (sync_worker st ws)
unfolding sync_worker
sync_worker-IsMap st ws h =
    start_if-IsMap st.enabled (name_eq st.type interceptor) (should_run_poll_worker st)
      (start_worker st (find st.id ws) ws) (start_worker-IsMap (find st.id ws))
  where
    start_worker-IsMap : (w : Option Station) → IsMap (start_worker st w ws)
    start_worker-IsMap (some w) = h
    start_worker-IsMap none = elim (Bool-cases (has_provider st.type)) [
      | inl e ↦ rw e (store-IsMap st.id st ws h)
      | inr e ↦ rw e h
    ]

    start_if-IsMap :
        (a b c : Bool) (starting : Table Station)
        → IsMap starting
        → IsMap (start_if a b c ws starting)
    start_if-IsMap false b c starting k = h
    start_if-IsMap true true c starting k = h
    start_if-IsMap true false false starting k = h
    start_if-IsMap true false true starting k = k

pub sync_workers-IsMap :
    (sts : List Station) (ws : Table Station) → IsMap ws → IsMap (sync_workers sts ws)
unfolding sync_workers
sync_workers-IsMap [] ws h = h
sync_workers-IsMap (st ∷ sts) ws h =
    sync_workers-IsMap sts (sync_worker st ws) (sync_worker-IsMap st ws h)
