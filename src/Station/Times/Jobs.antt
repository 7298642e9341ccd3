-- ===== src/Station/Times/Jobs.antt =====
-- The listener hands on no job that was not sent to it. `P` is a property of requests.
use aviationwx_bridge.Prelude.{
  Bool, Bool-cases, Instant, List, Option, [], false, inl, inr, is_zero, none, some, true, ◌&&◌,
  ◌∷◌, ◌≡◌,
}
use aviationwx_bridge.Queue.Names.{Name, name_eq}
use aviationwx_bridge.Queue.Names.Table.{Table, delete}
use aviationwx_bridge.Config.Values.{Station}
use aviationwx_bridge.Station.Ring.{WeatherRequest}
use aviationwx_bridge.Station.Status.{Observation, StationStatus}
use aviationwx_bridge.Station.Polling.{weather_request_from_obs}
use aviationwx_bridge.Station.Hub.{
  Hub, Job, Routing, active_addr, has_route, hub_for, keep_or_start, keep_routed, listening,
  pending_of, route_all, set_routes, sort_stations, start_hub, sync_interceptor_hub,
}
use aviationwx_bridge.Station.Ingest.{enqueue_job}

-- the jobs with a time that wait for the worker of the listener
abbrev pub JobsHold : (WeatherRequest → Type 0) → Table Job → Type 0
JobsHold P [] = Unit
JobsHold P (j ∷ js) =
    (is_zero j.1.1.observed_at ≡ false → P (weather_request_from_obs j.1.1)) × JobsHold P js

module _ (P : WeatherRequest → Type 0) where
  keep_routed-JobsHold :
      (routes : Table Station) (js : Table Job) → JobsHold P js → JobsHold P (keep_routed routes js)
  keep_routed-JobsHold routes [] h = tt
  keep_routed-JobsHold routes (j ∷ js) h = elim (Bool-cases (has_route j.0 routes)) [
    | inl e ↦ rw e (h.0, keep_routed-JobsHold routes js h.1)
    | inr e ↦ rw e (keep_routed-JobsHold routes js h.1)
  ]

  delete-JobsHold : (id : Name) (js : Table Job) → JobsHold P js → JobsHold P (delete id js)
  delete-JobsHold id [] h = tt
  delete-JobsHold id (j ∷ js) h = elim (Bool-cases (name_eq j.0 id)) [
    | inl e ↦ rw e (delete-JobsHold id js h.1)
    | inr e ↦ rw e (h.0, delete-JobsHold id js h.1)
  ]

  pub enqueue_job-JobsHold :
      (now : Instant) (st : Station) (obs : Observation) (h : Hub)
      → (is_zero obs.observed_at ≡ false → P (weather_request_from_obs obs))
      → JobsHold P h.pending
      → JobsHold P (enqueue_job now st obs h).pending
  enqueue_job-JobsHold now st obs h p k = (p, delete-JobsHold st.id h.pending k)

  start_hub-JobsHold :
      (addr : Name) (routes : Table Station) (old : Option Hub) (err : Option Name)
      (ss : Table StationStatus)
      → JobsHold P (pending_of old)
      → JobsHold P (pending_of (start_hub addr routes old err ss).0)
  start_hub-JobsHold addr routes old none ss h = h
  start_hub-JobsHold addr routes old (some err) ss h = tt

  keep_or_start-JobsHold :
      (b : Bool) (addr : Name) (routes : Table Station) (hub : Hub) (err : Option Name)
      (ss : Table StationStatus)
      → JobsHold P hub.pending
      → JobsHold P (pending_of (keep_or_start b addr routes hub err ss).0)
  unfolding set_routes
  keep_or_start-JobsHold true addr routes hub err ss h = keep_routed-JobsHold routes hub.pending h
  keep_or_start-JobsHold false addr routes hub err ss h =
      start_hub-JobsHold addr routes (some hub) err ss h

  hub_for-JobsHold :
      (addr : Name) (r : Routing) (old : Option Hub) (err : Option Name)
      → JobsHold P (pending_of old)
      → JobsHold P (pending_of (hub_for addr r old err).0)
  hub_for-JobsHold addr ([], ss) old err h = tt
  hub_for-JobsHold addr (r ∷ rs, ss) none err h = start_hub-JobsHold addr (r ∷ rs) none err ss h
  hub_for-JobsHold addr (r ∷ rs, ss) (some hub) err h =
      keep_or_start-JobsHold (name_eq hub.addr addr && hub.alive) addr (r ∷ rs) hub err ss h

  pub sync_interceptor_hub-JobsHold :
      (quote : Name → Name) (err : Option Name) (wanted : List Station) (old : Option Hub)
      (ss : Table StationStatus)
      → JobsHold P (pending_of old)
      → JobsHold P (pending_of (sync_interceptor_hub quote err wanted old ss).0)
  unfolding sync_interceptor_hub
  sync_interceptor_hub-JobsHold quote err wanted old ss h =
      let enabled = sort_stations (listening wanted) in
      hub_for-JobsHold (active_addr enabled)
        (route_all quote (active_addr enabled) enabled ([], ss)) old err h
