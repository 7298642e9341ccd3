-- ===== src/Station/Sync/Events.antt =====
-- Which workers run, whatever happened before the configuration was read.
use aviationwx_bridge.Prelude.{
  Bool, Bool-cases, Instant, List, Option, String, [], ap, if◌then◌else◌, inl, inr, is_zero, none,
  refl, some, subst, suc, sym, ℕ, ◌∙◌, ◌∷◌, ◌≡◌,
}
use aviationwx_bridge.Queue.Names.{Name, name_eq}
use aviationwx_bridge.Queue.Names.Table.{Table, find}
use aviationwx_bridge.Config.Values.{Station}
use aviationwx_bridge.Station.Uplink.{WeatherErr}
use aviationwx_bridge.Station.Delivery.{Attempt}
use aviationwx_bridge.Station.Catchup.{tick_catchup}
use aviationwx_bridge.Station.Status.{Observation}
use aviationwx_bridge.Station.Polling.{
  PollAnswer, Polling, TickEnv, partly_polled, poll_failed, polled, tick, tick_failed,
}
use aviationwx_bridge.Station.Hub.{Hub, Job}
use aviationwx_bridge.Station.Sync.{
  StationManager, find_station, keep_workers, new_station_manager, stop, sync_from_config,
  sync_polling,
}
use aviationwx_bridge.Station.Ingest.{
  handle_interceptor_observation, handle_jobs, note_missing_interceptor_dateutc, run_worker, serve,
  serve_route, serve_station, too_early,
}
use aviationwx_bridge.Station.Sync.Keeping.{IsMap, find-keep_workers, keep_workers-IsMap}
use aviationwx_bridge.Station.Sync.Workers.{
  HasDistinctIds, find-sync_workers, started, started-kept, sync_workers-IsMap, worker_for,
}

-- what can happen to the manager: a new configuration with the answer of the listener, a poll of a
-- worker that runs, a request to the listener, a round of its worker, a tick that drains the ring, and
-- the stop
pub data Event : Type 0 where
  sync_event : Option Name → List Station → Event
  tick_event : TickEnv → Name → PollAnswer → Event
  drain_event : List String → Bool → (ℕ → Attempt) → Instant → Instant → Event
  serve_event : Name → Instant → (Station → Observation) → Option ℕ → Event
  jobs_event : (ℕ → TickEnv) → (ℕ → Option ℕ) → Event
  stop_event : Event

module _ (text : Name → String) (quote : Name → Name) (shorten : ℕ → Option ℕ)
    (transport : WeatherErr → Bool) where
  -- a poll of the worker of an id, if there is one
  abbrev pub tick_worker : TickEnv → PollAnswer → Option Station → Polling → Polling
  tick_worker env answer none p = p
  tick_worker env answer (some st) p = tick text shorten env st answer p

  unfoldable pub apply : Event → StationManager → StationManager
  apply (sync_event err wanted) m = sync_from_config text quote err wanted m
  apply (tick_event env id answer) m = record m {
    polling = tick_worker env answer (find id m.polling.workers) m.polling;
  }
  apply (drain_event ids configured env now later) m = record m {
    polling = record m.polling {
      delivery = tick_catchup transport ids configured env now later m.polling.delivery;
    };
  }
  apply (serve_event path now observe raw) m = serve text shorten path now observe raw m.hub m
  apply (jobs_event env raw) m = run_worker text shorten env raw m.hub m
  apply stop_event m = stop m

  unfoldable pub run : List Event → StationManager → StationManager
  run [] m = m
  run (e ∷ es) m = run es (apply e m)

  tick_workers :
      (env : TickEnv) (st : Station) (answer : PollAnswer) (p : Polling)
      → (tick text shorten env st answer p).workers ≡ p.workers
  unfolding tick tick_failed
  tick_workers env st (poll_failed err) p = refl
  tick_workers env st (partly_polled err obs raw) p = refl
  tick_workers env st (polled obs raw) p = elim (Bool-cases (is_zero obs.observed_at)) [
    | inl z ↦ rw z refl
    | inr z ↦ rw z refl
  ]

  tick_worker-workers :
      (env : TickEnv) (answer : PollAnswer) (found : Option Station) (p : Polling)
      → (tick_worker env answer found p).workers ≡ p.workers
  tick_worker-workers env answer none p = refl
  tick_worker-workers env answer (some st) p = tick_workers env st answer p

  handle-workers :
      (env : TickEnv) (raw : Option ℕ) (j : Job) (p : Polling)
      → (handle_interceptor_observation text shorten env raw j p).workers ≡ p.workers
  unfolding handle_interceptor_observation note_missing_interceptor_dateutc
  handle-workers env raw (st, obs) p = elim (Bool-cases (is_zero obs.observed_at)) [
    | inl z ↦ rw z refl
    | inr z ↦ rw z refl
  ]

  handle_jobs-workers :
      (env : ℕ → TickEnv) (raw : ℕ → Option ℕ) (i : ℕ) (js : Table Job) (p : Polling)
      → (handle_jobs text shorten env raw i js p).workers ≡ p.workers
  unfolding handle_jobs
  handle_jobs-workers env raw i [] p = refl
  handle_jobs-workers env raw i (j ∷ js) p =
      handle_jobs-workers env raw (suc i) js
        (handle_interceptor_observation text shorten (env i) (raw i) j.1 p)
      ∙ handle-workers (env i) (raw i) j.1 p

  run_worker-workers :
      (env : ℕ → TickEnv) (raw : ℕ → Option ℕ) (hub : Option Hub) (m : StationManager)
      → (run_worker text shorten env raw hub m).polling.workers ≡ m.polling.workers
  unfolding run_worker
  run_worker-workers env raw none m = refl
  run_worker-workers env raw (some h) m = handle_jobs-workers env raw 0 h.pending m.polling

  serve_route-workers :
      (now : Instant) (observe : Station → Observation) (raw : Option ℕ) (found : Option Station)
      (h : Hub) (m : StationManager)
      → (serve_route text shorten now observe raw found h m).polling.workers ≡ m.polling.workers
  unfolding serve_station note_missing_interceptor_dateutc
  serve_route-workers now observe raw none h m = refl
  serve_route-workers now observe raw (some st) h m =
      elim (Bool-cases (is_zero (observe st).observed_at)) [
        | inl z ↦ rw z refl
        | inr z ↦ elim (Bool-cases (too_early now (find st.id h.last_emit))) [
          | inl t ↦ rw (z, t) refl
          | inr t ↦ rw (z, t) refl
        ]
      ]

  serve-workers :
      (path : Name) (now : Instant) (observe : Station → Observation) (raw : Option ℕ)
      (hub : Option Hub) (m : StationManager)
      → (serve text shorten path now observe raw hub m).polling.workers ≡ m.polling.workers
  unfolding serve
  serve-workers path now observe raw none m = refl
  serve-workers path now observe raw (some h) m =
      serve_route-workers now observe raw
        (find (if name_eq path [] then b'/' ∷ [] else path) h.routes) h m

  apply-IsMap :
      (e : Event) (m : StationManager) → IsMap m.polling.workers → IsMap (apply e m).polling.workers
  unfolding apply sync_from_config sync_polling stop
  apply-IsMap (sync_event err wanted) m h =
      sync_workers-IsMap wanted (keep_workers wanted m.polling.workers)
        (keep_workers-IsMap wanted m.polling.workers h)
  apply-IsMap (tick_event env id answer) m h =
      subst IsMap (sym (tick_worker-workers env answer (find id m.polling.workers) m.polling)) h
  apply-IsMap (drain_event ids configured env now later) m h = h
  apply-IsMap (serve_event path now observe raw) m h =
      subst IsMap (sym (serve-workers path now observe raw m.hub m)) h
  apply-IsMap (jobs_event env raw) m h = subst IsMap (sym (run_worker-workers env raw m.hub m)) h
  apply-IsMap stop_event m h = tt

  run-IsMap :
      (es : List Event) (m : StationManager)
      → IsMap m.polling.workers
      → IsMap (run es m).polling.workers
  unfolding run
  run-IsMap [] m h = h
  run-IsMap (e ∷ es) m h = run-IsMap es (apply e m) (apply-IsMap e m h)

  -- Whatever happened to a new manager, a configuration of stations with distinct ids leaves for every
  -- id the worker that it demands: none for a station that is not there, disabled, a listener, or not
  -- ready to be polled; the one that ran, untouched, if it polls by the same settings; otherwise a new
  -- one.
  pub sync_from_config_lem :
      (es : List Event) (err : Option Name) (wanted : List Station) (id : Name)
      → HasDistinctIds wanted
      → let before_sync = run es new_station_manager in
        find id (sync_from_config text quote err wanted before_sync).polling.workers
        ≡ worker_for (find id before_sync.polling.workers) (find_station id wanted)
  unfolding sync_from_config sync_polling new_station_manager
  sync_from_config_lem es err wanted id d =
      let ws = (run es new_station_manager).polling.workers in
      find-sync_workers wanted (keep_workers wanted ws) id d
      ∙ ap (λ w. started w (find_station id wanted))
          (find-keep_workers wanted id ws (run-IsMap es new_station_manager tt))
      ∙ started-kept (find id ws) (find_station id wanted)
