-- ===== src/Station/Hub/Routes.antt =====
-- Every station that listens gets a route or is shown as broken, and only those get routes.
use aviationwx_bridge.Prelude.{
  Bool, Bool-cases, List, Option, [], false, inl, inr, none, refl, some, subst, sym, true, ◌||◌,
  ◌∙◌, ◌∷◌, ◌≡◌, ◌⊎◌,
}
use aviationwx_bridge.Queue.Names.{Name, name_eq}
use aviationwx_bridge.Queue.Names.RoundTrip.{name_eq_sound}
use aviationwx_bridge.Queue.Names.Table.{Table, find, find-store_other, find-store_self, store}
use aviationwx_bridge.Scheduler.Upload.Transfer.{contains_text}
use aviationwx_bridge.Config.Values.{Station}
use aviationwx_bridge.Station.Status.{StationStatus, or_no_status, set_status}
use aviationwx_bridge.Station.Hub.{
  Routing, conflict_message, failed_message, interceptor_routing_error, listen_addr_word,
  listen_failed_word, listen_path_word, mismatch_message, routable, route, route_all, route_by,
  unroutable,
}
use aviationwx_bridge.Station.Hub.Sorted.{HasOwnIds, IsIn}

-- a station that the console shows as one that cannot be reached
abbrev pub IsBroken : Name → Table StationStatus → Type 0
IsBroken id ss =
    (s : StationStatus) × (find id ss ≡ some s)
    × (s.degraded ≡ true)
    × (s.lan_ok ≡ false)
    × (interceptor_routing_error s.last_poll_error ≡ true)

abbrev pub IsRouted : Name → Station → Table Station → Type 0
IsRouted addr st routes = (find st.listen_path routes ≡ some st) × (st.listen_addr ≡ addr)

abbrev pub IsSettled : Name → Station → Routing → Type 0
IsSettled addr st r = IsRouted addr st r.0 ⊎ IsBroken st.id r.1

pub set_status-IsBroken :
    (id : Name) (msg : Name) (ss : Table StationStatus)
    → interceptor_routing_error msg ≡ true
    → IsBroken id (set_status id (unroutable msg) ss)
unfolding set_status
set_status-IsBroken id msg ss e = (
  unroutable msg (or_no_status (find id ss)),
  find-store_self id (unroutable msg (or_no_status (find id ss))) ss,
  refl,
  refl,
  e,
)

pub set_status-keeps :
    (id other : Name) (change : StationStatus → StationStatus) (ss : Table StationStatus)
    → name_eq id other ≡ false
    → IsBroken other ss
    → IsBroken other (set_status id change ss)
unfolding set_status
set_status-keeps id other change ss d (s, e, a, b, c) =
    (s, find-store_other id other (change (or_no_status (find id ss))) ss d ∙ e, a, b, c)

or_true : (a : Bool) → (a || true) ≡ true
or_true true = refl
or_true false = refl

or_left : (a b : Bool) → ((a || true) || b) ≡ true
or_left true b = refl
or_left false b = refl

mismatch_is_routing_error :
    (quote : Name → Name) (got addr : Name)
    → interceptor_routing_error (mismatch_message quote got addr) ≡ true
unfolding interceptor_routing_error
mismatch_is_routing_error quote got addr = refl

conflict_is_routing_error :
    (quote : Name → Name) (path keeper : Name)
    → interceptor_routing_error (conflict_message quote path keeper) ≡ true
unfolding interceptor_routing_error
conflict_is_routing_error quote path keeper =
    let msg = conflict_message quote path keeper in
    or_left (contains_text listen_addr_word msg) (contains_text listen_failed_word msg)

pub failure_is_routing_error :
    (addr err : Name) → interceptor_routing_error (failed_message addr err) ≡ true
unfolding interceptor_routing_error
failure_is_routing_error addr err =
    let msg = failed_message addr err in
    or_true (contains_text listen_addr_word msg || contains_text listen_path_word msg)

-- every route leads to one of the stations, by its path and the address
abbrev pub AllKnown : Name → List Station → Table Station → Type 0
AllKnown addr sts routes =
    (path : Name) (st : Station)
    → find path routes ≡ some st
    → IsIn st sts × (st.listen_addr ≡ addr) × (st.listen_path ≡ path)

module _ (quote : Name → Name) (addr : Name) where
  route_by_self :
      (st : Station) (prev : Option Station) (r : Routing)
      → st.listen_addr ≡ addr
      → IsSettled addr st (route_by quote st prev r)
  route_by_self st none r a = inl (find-store_self st.listen_path st r.0, a)
  route_by_self st (some prev) r a = inr (
      set_status-IsBroken st.id (conflict_message quote st.listen_path prev.id) r.1
        (conflict_is_routing_error quote st.listen_path prev.id))

  route_self : (st : Station) (r : Routing) → IsSettled addr st (route quote addr st r)
  unfolding route
  route_self st r = elim (Bool-cases (name_eq st.listen_addr addr)) [
    | inl e ↦
        rw e (route_by_self st (find st.listen_path r.0) r (name_eq_sound st.listen_addr addr e))
    | inr e ↦ rw e (
        inr (
          set_status-IsBroken st.id (mismatch_message quote st.listen_addr addr) r.1
            (mismatch_is_routing_error quote st.listen_addr addr)))
  ]

  -- a new route stands at a path that was free
  free_path :
      (path taken : Name) (st : Station) (routes : Table Station)
      → find path routes ≡ none
      → find taken routes ≡ some st
      → name_eq path taken ≡ false
  free_path path taken st routes n s = elim (Bool-cases (name_eq path taken)) [
    | inr e ↦ e
    | inl e ↦
        let same : path ≡ taken = name_eq_sound path taken e in
        absurd (cc (sym (subst (λ p. find p routes ≡ none) same n) ∙ s))
  ]

  route_by_keeps :
      (st t : Station) (prev : Option Station) (r : Routing)
      → find t.listen_path r.0 ≡ prev
      → name_eq t.id st.id ≡ false
      → IsSettled addr st r
      → IsSettled addr st (route_by quote t prev r)
  route_by_keeps st t none r n d (inl k) = inl (
    find-store_other t.listen_path st.listen_path t r.0
          (free_path t.listen_path st.listen_path st r.0 n k.0)
        ∙ k.0,
    k.1,
  )
  route_by_keeps st t none r n d (inr k) = inr (set_status-keeps t.id st.id routable r.1 d k)
  route_by_keeps st t (some prev) r n d (inl k) = inl k
  route_by_keeps st t (some prev) r n d (inr k) = inr (
      set_status-keeps t.id st.id (unroutable (conflict_message quote t.listen_path prev.id)) r.1 d
        k)

  mismatch_keeps :
      (st t : Station) (r : Routing)
      → name_eq t.id st.id ≡ false
      → IsSettled addr st r
      → IsSettled addr st
          (r.0, set_status t.id (unroutable (mismatch_message quote t.listen_addr addr)) r.1)
  mismatch_keeps st t r d (inl k) = inl k
  mismatch_keeps st t r d (inr k) =
      inr (
        set_status-keeps t.id st.id (unroutable (mismatch_message quote t.listen_addr addr)) r.1 d
          k)

  route_keeps :
      (st t : Station) (r : Routing)
      → name_eq t.id st.id ≡ false
      → IsSettled addr st r
      → IsSettled addr st (route quote addr t r)
  unfolding route
  route_keeps st t r d k = elim (Bool-cases (name_eq t.listen_addr addr)) [
    | inl e ↦ rw e (route_by_keeps st t (find t.listen_path r.0) r refl d k)
    | inr e ↦ rw e (mismatch_keeps st t r d k)
  ]

  route_all_keeps :
      (st : Station) (ts : List Station) (r : Routing)
      → ((t : Station) → IsIn t ts → name_eq t.id st.id ≡ false)
      → IsSettled addr st r
      → IsSettled addr st (route_all quote addr ts r)
  unfolding route_all
  route_all_keeps st [] r d k = k
  route_all_keeps st (t ∷ ts) r d k =
      route_all_keeps st ts (route quote addr t r) (λ u i. d u (inr i))
        (route_keeps st t r (d t (inl refl)) k)

  pub route_all-IsSettled :
      (st : Station) (ts : List Station) (r : Routing)
      → HasOwnIds ts
      → IsIn st ts
      → IsSettled addr st (route_all quote addr ts r)
  unfolding route_all
  route_all-IsSettled st [] r h i = absurd i
  route_all-IsSettled st (t ∷ ts) r h (inl e) =
      subst (λ u. IsSettled addr u (route_all quote addr ts (route quote addr t r))) e
        (route_all_keeps t ts (route quote addr t r) (λ u i. (h.0 u i).1) (route_self t r))
  route_all-IsSettled st (t ∷ ts) r h (inr i) =
      route_all-IsSettled st ts (route quote addr t r) h.1 i

  store-AllKnown :
      (sts : List Station) (t : Station) (routes : Table Station)
      → IsIn t sts
      → t.listen_addr ≡ addr
      → AllKnown addr sts routes
      → AllKnown addr sts (store t.listen_path t routes)
  store-AllKnown sts t routes i a k path st f = elim (Bool-cases (name_eq t.listen_path path)) [
    | inl e ↦
        let found : t ≡ st = cc (rw e at f) in
        subst (λ u. IsIn u sts × (u.listen_addr ≡ addr) × (u.listen_path ≡ path)) found
          (i, a, name_eq_sound t.listen_path path e)
    | inr e ↦ k path st (sym (find-store_other t.listen_path path t routes e) ∙ f)
  ]

  route_by-AllKnown :
      (sts : List Station) (t : Station) (prev : Option Station) (r : Routing)
      → IsIn t sts
      → t.listen_addr ≡ addr
      → AllKnown addr sts r.0
      → AllKnown addr sts (route_by quote t prev r).0
  route_by-AllKnown sts t none r i a k = store-AllKnown sts t r.0 i a k
  route_by-AllKnown sts t (some prev) r i a k = k

  route-AllKnown :
      (sts : List Station) (t : Station) (r : Routing)
      → IsIn t sts
      → AllKnown addr sts r.0
      → AllKnown addr sts (route quote addr t r).0
  unfolding route
  route-AllKnown sts t r i k path st f = elim (Bool-cases (name_eq t.listen_addr addr)) [
    | inl e ↦
        route_by-AllKnown sts t (find t.listen_path r.0) r i (name_eq_sound t.listen_addr addr e) k
          path st (rw e at f)
    | inr e ↦ k path st (rw e at f)
  ]

  pub route_all-AllKnown :
      (sts ts : List Station) (r : Routing)
      → ((t : Station) → IsIn t ts → IsIn t sts)
      → AllKnown addr sts r.0
      → AllKnown addr sts (route_all quote addr ts r).0
  unfolding route_all
  route_all-AllKnown sts [] r w k = k
  route_all-AllKnown sts (t ∷ ts) r w k =
      route_all-AllKnown sts ts (route quote addr t r) (λ u i. w u (inr i))
        (route-AllKnown sts t r (w t (inl refl)) k)
