-- ===== src/Station/Hub/Served.antt =====
-- What the hub serves after the configuration was read.
use aviationwx_bridge.Prelude.{
  Bool, Bool-cases, List, Option, [], false, inl, inr, none, refl, some, subst, sym, true, ◌&&◌,
  ◌∙◌, ◌∷◌, ◌≡◌, ◌⊎◌,
}
use aviationwx_bridge.Queue.Names.{Name, name_eq}
use aviationwx_bridge.Queue.Names.RoundTrip.{name_eq_sound}
use aviationwx_bridge.Queue.Names.Table.{Table, find}
use aviationwx_bridge.Config.Values.{Station}
use aviationwx_bridge.Config.Station.{normalize_station_defaults}
use aviationwx_bridge.Config.Station.Defaults.{normalize_station_defaults-id}
use aviationwx_bridge.Station.Status.{StationStatus, set_status}
use aviationwx_bridge.Station.Hub.{
  Hub, Routing, active_addr, all_failed, failed_message, hub_for, interceptor_routing_error,
  keep_or_start, route_all, set_routes, start_hub, switch_hub, sync_interceptor_hub, unroutable,
}
use aviationwx_bridge.Station.Hub.Sorted.{
  ComesFrom, HasOwnIds, IsIn, IsIn-enabled_stations, enabled_stations, enabled_stations-ComesFrom,
  enabled_stations-HasOwnIds, listens,
}
use aviationwx_bridge.Station.Hub.Routes.{
  AllKnown, IsBroken, IsSettled, failure_is_routing_error, route_all-AllKnown, route_all-IsSettled,
  set_status-IsBroken, set_status-keeps,
}

all_failed_keeps :
    (id msg : Name) (rs : Table Station) (ss : Table StationStatus)
    → interceptor_routing_error msg ≡ true
    → IsBroken id ss
    → IsBroken id (all_failed msg rs ss)
all_failed_keeps id msg [] ss e k = k
all_failed_keeps id msg (r ∷ rs) ss e k =
    all_failed_keeps id msg rs (set_status r.1.id (unroutable msg) ss) e
      (elim (Bool-cases (name_eq r.1.id id)) [
        | inl d ↦
            subst (λ n. IsBroken n (set_status r.1.id (unroutable msg) ss))
              (name_eq_sound r.1.id id d) (set_status-IsBroken r.1.id msg ss e)
        | inr d ↦ set_status-keeps r.1.id id (unroutable msg) ss d k
      ])

all_failed-IsBroken :
    (path msg : Name) (st : Station) (rs : Table Station) (ss : Table StationStatus)
    → interceptor_routing_error msg ≡ true
    → find path rs ≡ some st
    → IsBroken st.id (all_failed msg rs ss)
all_failed-IsBroken path msg st [] ss e f = absurd (cc f)
all_failed-IsBroken path msg st (r ∷ rs) ss e f = elim (Bool-cases (name_eq r.0 path)) [
  | inl d ↦
      let found : r.1 ≡ st = cc (rw d at f) in
      all_failed_keeps st.id msg rs (set_status r.1.id (unroutable msg) ss) e (
        subst (λ u. IsBroken u.id (set_status r.1.id (unroutable msg) ss)) found
          (set_status-IsBroken r.1.id msg ss e))
  | inr d ↦ all_failed-IsBroken path msg st rs (set_status r.1.id (unroutable msg) ss) e (rw d at f)
]

-- the hub that runs serves a station at its path and address
abbrev pub IsServed : Station → Option Hub → Type 0
IsServed st none = ⊥
IsServed st (some h) = (find st.listen_path h.routes ≡ some st) × (st.listen_addr ≡ h.addr)

start_hub-settles :
    (addr : Name) (routes : Table Station) (old : Option Hub) (err : Option Name)
    (ss : Table StationStatus) (st : Station)
    → IsSettled addr st (routes, ss)
    → IsServed st (start_hub addr routes old err ss).0
      ⊎ IsBroken st.id (start_hub addr routes old err ss).1
start_hub-settles addr routes old none ss st k = k
start_hub-settles addr routes old (some err) ss st (inl k) = inr (
    all_failed-IsBroken st.listen_path (failed_message addr err) st routes ss
      (failure_is_routing_error addr err) k.0)
start_hub-settles addr routes old (some err) ss st (inr k) = inr (
    all_failed_keeps st.id (failed_message addr err) routes ss (failure_is_routing_error addr err)
      k)

kept_hub-settles :
    (addr : Name) (routes : Table Station) (h : Hub) (ss : Table StationStatus) (st : Station)
    → name_eq h.addr addr ≡ true
    → IsSettled addr st (routes, ss)
    → IsServed st (some (set_routes routes h)) ⊎ IsBroken st.id ss
unfolding set_routes
kept_hub-settles addr routes h ss st e (inl k) = inl (k.0, k.1 ∙ sym (name_eq_sound h.addr addr e))
kept_hub-settles addr routes h ss st e (inr k) = inr k

both : (a b : Bool) → (a && b) ≡ true → a ≡ true
both true b h = refl
both false b h = h

keep_or_start-settles :
    (b : Bool) (addr : Name) (routes : Table Station) (h : Hub) (err : Option Name)
    (ss : Table StationStatus) (st : Station)
    → (b ≡ true → name_eq h.addr addr ≡ true)
    → IsSettled addr st (routes, ss)
    → IsServed st (keep_or_start b addr routes h err ss).0
      ⊎ IsBroken st.id (keep_or_start b addr routes h err ss).1
keep_or_start-settles true addr routes h err ss st e k =
    kept_hub-settles addr routes h ss st (e refl) k
keep_or_start-settles false addr routes h err ss st e k =
    start_hub-settles addr routes (some h) err ss st k

switch_hub-settles :
    (addr : Name) (routes : Table Station) (old : Option Hub) (err : Option Name)
    (ss : Table StationStatus) (st : Station)
    → IsSettled addr st (routes, ss)
    → IsServed st (switch_hub addr routes old err ss).0
      ⊎ IsBroken st.id (switch_hub addr routes old err ss).1
switch_hub-settles addr routes none err ss st k = start_hub-settles addr routes none err ss st k
switch_hub-settles addr routes (some h) err ss st k =
    keep_or_start-settles (name_eq h.addr addr && h.alive) addr routes h err ss st
      (both (name_eq h.addr addr) h.alive) k

hub_for-settles :
    (addr : Name) (r : Routing) (old : Option Hub) (err : Option Name) (st : Station)
    → IsSettled addr st r
    → IsServed st (hub_for addr r old err).0 ⊎ IsBroken st.id (hub_for addr r old err).1
hub_for-settles addr ([], ss) old err st (inl k) = absurd (cc k.0)
hub_for-settles addr ([], ss) old err st (inr k) = inr k
hub_for-settles addr (r ∷ rs, ss) old err st k = switch_hub-settles addr (r ∷ rs) old err ss st k

-- the routes of a hub are those of the loop, and its address is the active one
abbrev pub HasRoutes : Name → Table Station → Option Hub → Type 0
HasRoutes addr routes none = Unit
HasRoutes addr routes (some h) = (h.addr ≡ addr) × (h.routes ≡ routes)

start_hub-HasRoutes :
    (addr : Name) (routes : Table Station) (old : Option Hub) (err : Option Name)
    (ss : Table StationStatus)
    → HasRoutes addr routes (start_hub addr routes old err ss).0
start_hub-HasRoutes addr routes old none ss = (refl, refl)
start_hub-HasRoutes addr routes old (some err) ss = tt

keep_or_start-HasRoutes :
    (b : Bool) (addr : Name) (routes : Table Station) (h : Hub) (err : Option Name)
    (ss : Table StationStatus)
    → (b ≡ true → name_eq h.addr addr ≡ true)
    → HasRoutes addr routes (keep_or_start b addr routes h err ss).0
unfolding set_routes
keep_or_start-HasRoutes true addr routes h err ss e = (name_eq_sound h.addr addr (e refl), refl)
keep_or_start-HasRoutes false addr routes h err ss e =
    start_hub-HasRoutes addr routes (some h) err ss

hub_for-HasRoutes :
    (addr : Name) (r : Routing) (old : Option Hub) (err : Option Name)
    → HasRoutes addr r.0 (hub_for addr r old err).0
hub_for-HasRoutes addr ([], ss) old err = tt
hub_for-HasRoutes addr (r ∷ rs, ss) none err = start_hub-HasRoutes addr (r ∷ rs) none err ss
hub_for-HasRoutes addr (r ∷ rs, ss) (some h) err =
    keep_or_start-HasRoutes (name_eq h.addr addr && h.alive) addr (r ∷ rs) h err ss
      (both (name_eq h.addr addr) h.alive)

-- a request at a path is one for a station of the configuration that listens there
abbrev pub ServesOnly : List Station → Option Hub → Type 0
ServesOnly wanted none = Unit
ServesOnly wanted (some h) =
    (path : Name) (st : Station)
    → find path h.routes ≡ some st
    → ComesFrom wanted st × (st.listen_addr ≡ h.addr) × (st.listen_path ≡ path)

known-ServesOnly :
    (wanted : List Station) (addr : Name) (routes : Table Station) (hub : Option Hub)
    → AllKnown addr (enabled_stations wanted) routes
    → HasRoutes addr routes hub
    → ServesOnly wanted hub
known-ServesOnly wanted addr routes none k h = tt
known-ServesOnly wanted addr routes (some hub) k h = λ path st f.
    let found = k path st (subst (λ rs. find path rs ≡ some st) h.1 f) in
    (enabled_stations-ComesFrom st wanted found.0, found.1 ∙ sym h.0, found.2)

-- Of stations with distinct ids, whatever hub there was and whether the listener starts, every enabled
-- station that listens is, with its defaults filled in, served at its path and address, or its status
-- says that it is degraded and not reachable, with an error of the routing. What the hub serves at a
-- path is such a station, at its own path and at the address of the hub.
pub sync_interceptor_hub_lem :
    (quote : Name → Name) (err : Option Name) (wanted : List Station) (old : Option Hub)
    (ss : Table StationStatus)
    → HasOwnIds wanted
    → let r = sync_interceptor_hub quote err wanted old ss in
      ((st : Station)
        → IsIn st wanted
        → listens st ≡ true
        → IsServed (normalize_station_defaults st) r.0 ⊎ IsBroken st.id r.1)
      × ServesOnly wanted r.0
unfolding sync_interceptor_hub
sync_interceptor_hub_lem quote err wanted old ss h =
    let enabled = enabled_stations wanted in
    let addr = active_addr enabled in
    let r = route_all quote addr enabled ([], ss) in
    (
      λ st i l.
          let u = normalize_station_defaults st in
          subst (λ n. IsServed u (hub_for addr r old err).0 ⊎ IsBroken n (hub_for addr r old err).1)
            (normalize_station_defaults-id st)
            (hub_for-settles addr r old err u (
              route_all-IsSettled quote addr u enabled ([], ss)
                (enabled_stations-HasOwnIds wanted h) (IsIn-enabled_stations st wanted i l))),
      known-ServesOnly wanted addr r.0 (hub_for addr r old err).0
          (route_all-AllKnown quote addr enabled enabled ([], ss) (λ t i. i)
            (λ path st f. absurd (cc f)))
          (hub_for-HasRoutes addr r old err),
    )
