-- ===== src/Station/Times.antt =====
-- Only what a station reported with a time of its own is posted.
pub mod Ring
pub mod Delivery
pub mod Jobs
use aviationwx_bridge.Prelude.{
  Bool, Bool-cases, Instant, List, Option, String, [], false, if◌then◌else◌, inl, inr, is_zero,
  none, refl, some, subst, suc, ℕ, ◌∷◌, ◌≡◌, ◌⊎◌,
}
use aviationwx_bridge.Queue.Names.{Name, name_eq}
use aviationwx_bridge.Queue.Names.Table.{Table, find}
use aviationwx_bridge.Config.Values.{Station}
use aviationwx_bridge.Station.Ring.{WeatherRequest, new_outbound_ring}
use aviationwx_bridge.Station.Uplink.{WeatherErr}
use aviationwx_bridge.Station.Status.{Observation}
use aviationwx_bridge.Station.Polling.{
  PollAnswer, Polling, TickEnv, partly_polled, poll_failed, polled, tick, tick_failed,
  weather_request_from_obs,
}
use aviationwx_bridge.Station.Hub.{Hub, Job, pending_of}
use aviationwx_bridge.Station.Sync.{
  StationManager, ids_of, keep_wanted, new_station_manager, retain_stations, stop, sync_from_config,
  sync_polling, sync_statuses,
}
use aviationwx_bridge.Station.Ingest.{
  enqueue_job, handle_interceptor_observation, handle_jobs, note_missing_interceptor_dateutc,
  run_worker, serve, serve_route, serve_station, too_early,
}
use aviationwx_bridge.Station.Sync.Events.{
  Event, apply, drain_event, jobs_event, run, serve_event, stop_event, sync_event, tick_event,
  tick_worker,
}
use aviationwx_bridge.Station.Times.Ring.{retain_sources_kept}
use aviationwx_bridge.Station.Times.Delivery.{
  Holds, if_keeps, post_observation-Holds, tick_catchup-Holds,
}
use aviationwx_bridge.Station.Times.Jobs.{
  JobsHold, enqueue_job-JobsHold, sync_interceptor_hub-JobsHold,
}

-- a poll that gave an observation with a time, from which the request is made
abbrev pub IsPoll : WeatherRequest → PollAnswer → Type 0
IsPoll req (poll_failed err) = ⊥
IsPoll req (partly_polled err obs raw) = ⊥
IsPoll req (polled obs raw) =
    (weather_request_from_obs obs ≡ req) × (is_zero obs.observed_at ≡ false)

abbrev pub IsReportedBy : WeatherRequest → Event → Type 0
IsReportedBy req (sync_event err wanted) = ⊥
IsReportedBy req (tick_event env id answer) = IsPoll req answer
IsReportedBy req (drain_event ids configured env now later) = ⊥
IsReportedBy req (serve_event path now observe raw) =
    (st : Station) × (weather_request_from_obs (observe st) ≡ req)
    × (is_zero (observe st).observed_at ≡ false)
IsReportedBy req (jobs_event env raw) = ⊥
IsReportedBy req stop_event = ⊥

abbrev pub WasReported : List Event → WeatherRequest → Type 0
WasReported [] req = ⊥
WasReported (e ∷ es) req = IsReportedBy req e ⊎ WasReported es req

module _ (text : Name → String) (quote : Name → Name) (shorten : ℕ → Option ℕ)
    (transport : WeatherErr → Bool) (P : WeatherRequest → Type 0) where
  tick-Holds :
      (env : TickEnv) (st : Station) (answer : PollAnswer) (p : Polling)
      → ((req : WeatherRequest) → IsPoll req answer → P req)
      → Holds P p.delivery
      → Holds P (tick text shorten env st answer p).delivery
  unfolding tick tick_failed
  tick-Holds env st (poll_failed err) p k h = h
  tick-Holds env st (partly_polled err obs raw) p k h = h
  tick-Holds env st (polled obs raw) p k h = elim (Bool-cases (is_zero obs.observed_at)) [
    | inl z ↦ rw z h
    | inr z ↦ rw z (
        post_observation-Holds P env.configured env.flush env.flush_now env.live (text st.id)
          (weather_request_from_obs obs) p.delivery (k (weather_request_from_obs obs) (refl, z)) h)
  ]

  tick_worker-Holds :
      (env : TickEnv) (answer : PollAnswer) (found : Option Station) (p : Polling)
      → ((req : WeatherRequest) → IsPoll req answer → P req)
      → Holds P p.delivery
      → Holds P (tick_worker text quote shorten transport env answer found p).delivery
  tick_worker-Holds env answer none p k h = h
  tick_worker-Holds env answer (some st) p k h = tick-Holds env st answer p k h

  handle-Holds :
      (env : TickEnv) (raw : Option ℕ) (j : Job) (p : Polling)
      → (is_zero j.1.observed_at ≡ false → P (weather_request_from_obs j.1))
      → Holds P p.delivery
      → Holds P (handle_interceptor_observation text shorten env raw j p).delivery
  unfolding handle_interceptor_observation note_missing_interceptor_dateutc
  handle-Holds env raw (st, obs) p k h = elim (Bool-cases (is_zero obs.observed_at)) [
    | inl z ↦ rw z h
    | inr z ↦ rw z (
        post_observation-Holds P env.configured env.flush env.flush_now env.live (text st.id)
          (weather_request_from_obs obs) p.delivery (k z) h)
  ]

  handle_jobs-Holds :
      (env : ℕ → TickEnv) (raw : ℕ → Option ℕ) (i : ℕ) (js : Table Job) (p : Polling)
      → JobsHold P js
      → Holds P p.delivery
      → Holds P (handle_jobs text shorten env raw i js p).delivery
  unfolding handle_jobs
  handle_jobs-Holds env raw i [] p k h = h
  handle_jobs-Holds env raw i (j ∷ js) p k h =
      handle_jobs-Holds env raw (suc i) js
        (handle_interceptor_observation text shorten (env i) (raw i) j.1 p) k.1
        (handle-Holds (env i) (raw i) j.1 p k.0 h)

  -- all that is posted, waits in the ring, or waits for the worker of the listener
  abbrev pub ManagerHolds : StationManager → Type 0
  ManagerHolds m = Holds P m.polling.delivery × JobsHold P (pending_of m.hub)

  run_worker-Holds :
      (env : ℕ → TickEnv) (raw : ℕ → Option ℕ) (hub : Option Hub) (m : StationManager)
      → m.hub ≡ hub
      → ManagerHolds m
      → ManagerHolds (run_worker text shorten env raw hub m)
  unfolding run_worker
  run_worker-Holds env raw none m e h = h
  run_worker-Holds env raw (some hub) m e h = (
    handle_jobs-Holds env raw 0 hub.pending m.polling (subst (λ x. JobsHold P (pending_of x)) e h.1)
        h.0,
    tt,
  )

  serve_route-Holds :
      (now : Instant) (observe : Station → Observation) (raw : Option ℕ) (found : Option Station)
      (hub : Hub) (m : StationManager)
      → ((st : Station)
          → is_zero (observe st).observed_at ≡ false
          → P (weather_request_from_obs (observe st)))
      → JobsHold P hub.pending
      → ManagerHolds m
      → ManagerHolds (serve_route text shorten now observe raw found hub m)
  unfolding serve_station note_missing_interceptor_dateutc
  serve_route-Holds now observe raw none hub m k j h = h
  serve_route-Holds now observe raw (some st) hub m k j h =
      if_keeps ManagerHolds (is_zero (observe st).observed_at)
        (record m { polling = note_missing_interceptor_dateutc text shorten now st raw m.polling })
        (if too_early now (find st.id hub.last_emit)
          then m
          else record m { hub = some (enqueue_job now st (observe st) hub) })
        h
        (if_keeps ManagerHolds (too_early now (find st.id hub.last_emit)) m
          (record m { hub = some (enqueue_job now st (observe st) hub) }) h
          (h.0, enqueue_job-JobsHold P now st (observe st) hub (k st) j))

  serve-Holds :
      (path : Name) (now : Instant) (observe : Station → Observation) (raw : Option ℕ)
      (hub : Option Hub) (m : StationManager)
      → m.hub ≡ hub
      → ((st : Station)
          → is_zero (observe st).observed_at ≡ false
          → P (weather_request_from_obs (observe st)))
      → ManagerHolds m
      → ManagerHolds (serve text shorten path now observe raw hub m)
  unfolding serve
  serve-Holds path now observe raw none m e k h = h
  serve-Holds path now observe raw (some hub) m e k h =
      serve_route-Holds now observe raw
        (find (if name_eq path [] then b'/' ∷ [] else path) hub.routes) hub m k
        (subst (λ x. JobsHold P (pending_of x)) e h.1) h

  apply-Holds :
      (e : Event) (m : StationManager)
      → ((req : WeatherRequest) → IsReportedBy req e → P req)
      → ManagerHolds m
      → ManagerHolds (apply text quote shorten transport e m)
  unfolding apply sync_from_config sync_polling retain_stations stop
  apply-Holds (sync_event err wanted) m k h = (
    (retain_sources_kept P m.polling.delivery.ring (ids_of text wanted) h.0.0, h.0.1),
    sync_interceptor_hub-JobsHold P quote err wanted m.hub
        (keep_wanted wanted (sync_statuses wanted m.polling.status)) h.1,
  )
  apply-Holds (tick_event env id answer) m k h =
      (tick_worker-Holds env answer (find id m.polling.workers) m.polling k h.0, h.1)
  apply-Holds (drain_event ids configured env now later) m k h =
      (tick_catchup-Holds P transport ids configured env now later m.polling.delivery h.0, h.1)
  apply-Holds (serve_event path now observe raw) m k h =
      serve-Holds path now observe raw m.hub m refl
        (λ st z. k (weather_request_from_obs (observe st)) (st, refl, z)) h
  apply-Holds (jobs_event env raw) m k h = run_worker-Holds env raw m.hub m refl h
  apply-Holds stop_event m k h = (h.0, tt)

  run-Holds :
      (es : List Event) (m : StationManager)
      → ((req : WeatherRequest) → WasReported es req → P req)
      → ManagerHolds m
      → ManagerHolds (run text quote shorten transport es m)
  unfolding run
  run-Holds [] m k h = h
  run-Holds (e ∷ es) m k h =
      run-Holds es (apply text quote shorten transport e m) (λ req i. k req (inr i))
        (apply-Holds e m (λ req i. k req (inl i)) h)

-- Whatever happens to a new manager, every request that is posted or waits in the ring is made from an
-- observation with a time of the station, which a poll gave without an error or a device sent to the
-- listener.
pub run_posts_reported :
    (text : Name → String) (quote : Name → Name) (shorten : ℕ → Option ℕ)
    (transport : WeatherErr → Bool) (es : List Event)
    → Holds
        (WasReported es)
        (run text quote shorten transport es new_station_manager).polling.delivery
unfolding new_station_manager new_outbound_ring
run_posts_reported text quote shorten transport es =
    (run-Holds text quote shorten transport (WasReported es) es new_station_manager (λ req i. i)
      ((tt, tt), tt)).0
