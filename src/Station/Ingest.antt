-- ===== src/Station/Ingest.antt =====
-- internal/station/interceptor.go: what a device sends to the listener. `observe` is the observation that
-- `buildInterceptorObservation` makes of the request for a station; a request that cannot be read goes no
-- further than its answer.
use aviationwx_bridge.Prelude.{
  Bool, Instant, Option, String, [], false, if◌then◌else◌, is_zero, ltb, none, not, some, suc, true,
  zero_time, ℕ, ◌&&◌, ◌+◌, ◌∷◌,
}
use aviationwx_bridge.Queue.Names.{Name, name_eq}
use aviationwx_bridge.Queue.Names.Table.{Table, find, store}
use aviationwx_bridge.Config.Values.{Station}
use aviationwx_bridge.Station.Ring.{global_min_poll_interval}
use aviationwx_bridge.Station.Status.{Observation, StationStatus, note_payload, set_status}
use aviationwx_bridge.Station.Polling.{Polling, TickEnv, tick_posted}
use aviationwx_bridge.Station.Hub.{Hub, Job}
use aviationwx_bridge.Station.Sync.{StationManager}

abbrev missing_dateutc : Name
missing_dateutc =
    b'm' ∷ b'i' ∷ b's' ∷ b's' ∷ b'i' ∷ b'n' ∷ b'g' ∷ 32 ∷ b'o' ∷ b'b' ∷ b's' ∷ b'e' ∷ b'r' ∷ b'v'
    ∷ b'a' ∷ b't' ∷ b'i' ∷ b'o' ∷ b'n' ∷ 32 ∷ b't' ∷ b'i' ∷ b'm' ∷ b'e' ∷ b's' ∷ b't' ∷ b'a' ∷ b'm'
    ∷ b'p' ∷ 32 ∷ b'(' ∷ b'd' ∷ b'a' ∷ b't' ∷ b'e' ∷ b'u' ∷ b't' ∷ b'c' ∷ b')' ∷ b';' ∷ 32 ∷ b's'
    ∷ b'k' ∷ b'i' ∷ b'p' ∷ b'p' ∷ b'e' ∷ b'd' ∷ 32 ∷ b'w' ∷ b'e' ∷ b'a' ∷ b't' ∷ b'h' ∷ b'e' ∷ b'r'
    ∷ 32 ∷ b'P' ∷ b'O' ∷ b'S' ∷ b'T' ∷ []

-- at most one job of a station in a second
abbrev pub too_early : Instant → Option Instant → Bool
too_early now none = false
too_early now (some last) = not (is_zero last) && ltb now (last + global_min_poll_interval)

-- `enqueue`, after the time is noted
abbrev pub enqueue_job : Instant → Station → Observation → Hub → Hub
enqueue_job now st obs h = record h {
  last_emit = store st.id now h.last_emit;
  pending = store st.id (st, obs) h.pending;
}

module _ (text : Name → String) (shorten : ℕ → Option ℕ) where
  -- `noteMissingInterceptorDateutc`
  unfoldable pub note_missing_interceptor_dateutc : Instant → Station → Option ℕ → Polling → Polling
  note_missing_interceptor_dateutc now st raw p = record p {
    status =
        set_status st.id
          (λ s. record s {
            lan_ok = true;
            degraded = true;
            waiting_for_txid = false;
            last_poll_at = now;
            last_poll_error = missing_dateutc;
            last_observed_at = zero_time;
          })
          p.status;
    recent_payloads =
        note_payload shorten
          (record {
            at = now;
            observed_at = zero_time;
            station_id = st.id;
            lan_ok = true;
            posted = none;
            failed_post = none;
            message = missing_dateutc;
            raw = raw;
          })
          p.recent_payloads;
  }

  abbrev pub ingested_status : Instant → Observation → StationStatus → StationStatus
  ingested_status now obs s = record s {
    lan_ok = true;
    degraded = false;
    waiting_for_txid = false;
    last_poll_at = now;
    last_poll_error = [];
    last_observed_at = obs.observed_at;
  }

  -- `handleInterceptorObservation`, whose post and entry are those of a poll
  unfoldable pub handle_interceptor_observation : TickEnv → Option ℕ → Job → Polling → Polling
  handle_interceptor_observation env raw (st, obs) p =
      if is_zero obs.observed_at
      then note_missing_interceptor_dateutc env.now st raw p
      else tick_posted text shorten env st obs raw
          (record p { status = set_status st.id (ingested_status env.now obs) p.status })

  -- the rest of `serve`, for a station that has the route
  unfoldable pub serve_station :
      Instant → Station → Observation → Option ℕ → Hub → StationManager → StationManager
  serve_station now st obs raw h m =
      if is_zero obs.observed_at
      then record m { polling = note_missing_interceptor_dateutc now st raw m.polling }
      else if too_early now (find st.id h.last_emit)
      then m
      else record m { hub = some (enqueue_job now st obs h) }

  abbrev pub serve_route :
      Instant
      → (Station → Observation)
      → Option ℕ
      → Option Station
      → Hub
      → StationManager
      → StationManager
  serve_route now observe raw none h m = m
  serve_route now observe raw (some st) h m = serve_station now st (observe st) raw h m

  -- `serve` at the path of the request
  unfoldable pub serve :
      Name
      → Instant
      → (Station → Observation)
      → Option ℕ
      → Option Hub
      → StationManager
      → StationManager
  serve path now observe raw none m = m
  serve path now observe raw (some h) m =
      serve_route now observe raw (find (if name_eq path [] then b'/' ∷ [] else path) h.routes) h m

  -- the jobs that `takePending` took, one after the other
  unfoldable pub handle_jobs : (ℕ → TickEnv) → (ℕ → Option ℕ) → ℕ → Table Job → Polling → Polling
  handle_jobs env raw i [] p = p
  handle_jobs env raw i (j ∷ js) p =
      handle_jobs env raw (suc i) js (handle_interceptor_observation (env i) (raw i) j.1 p)

  -- one round of `runWorker`
  unfoldable pub run_worker :
      (ℕ → TickEnv) → (ℕ → Option ℕ) → Option Hub → StationManager → StationManager
  run_worker env raw none m = m
  run_worker env raw (some h) m = record {
    polling = handle_jobs env raw 0 h.pending m.polling;
    hub = some (record h { pending = [] });
  }
