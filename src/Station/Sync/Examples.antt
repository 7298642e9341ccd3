-- ===== src/Station/Sync/Examples.antt =====
-- A manager with a polled station and two listeners at one path.
use aviationwx_bridge.Prelude.{
  Bool, List, Option, String, [], false, inl, inr, none, refl, second, some, subst, true, ℕ, ◌*◌,
  ◌∷◌, ◌≡◌, ◌⊎◌,
}
use aviationwx_bridge.Queue.Names.{Name, pos}
use aviationwx_bridge.Queue.Names.Table.{find}
use aviationwx_bridge.Config.Values.{Station}
use aviationwx_bridge.Config.Upload.{trim_space}
use aviationwx_bridge.Config.Station.{
  davis, default_listen_addr, interceptor, normalize_station_defaults,
}
use aviationwx_bridge.Station.Ring.{
  keep_sources, new_outbound_ring, pop_ready, prune, prune_items, retain_sources, select,
}
use aviationwx_bridge.Station.Uplink.{WeatherErr, allow_attempt, new_weather_uplink, probe_due}
use aviationwx_bridge.Station.Delivery.{
  Attempt, after_live, flush_loop, flush_ready, flush_ring, note_weather_post_ok, post_observation,
}
use aviationwx_bridge.Station.Status.{Observation}
use aviationwx_bridge.Station.Polling.{TickEnv, polled, tick, weather_request_from_obs}
use aviationwx_bridge.Station.Hub.{
  has_route, listening, route, route_all, sort_stations, sync_interceptor_hub,
}
use aviationwx_bridge.Station.Hub.Sorted.{HasOwnIds, IsIn, IsOther, enabled_stations, listens}
use aviationwx_bridge.Station.Hub.Routes.{IsBroken}
use aviationwx_bridge.Station.Hub.Served.{IsServed, ServesOnly, sync_interceptor_hub_lem}
use aviationwx_bridge.Station.Sync.{
  find_station, keep_workers, new_station_manager, retain_stations, should_run_poll_worker,
  sync_from_config, sync_polling, sync_worker, sync_workers,
}
use aviationwx_bridge.Station.Sync.Workers.{worker_for}
use aviationwx_bridge.Station.Sync.Events.{
  Event, apply, run, sync_event, sync_from_config_lem, tick_event,
}
use aviationwx_bridge.Station.Times.Delivery.{Holds}
use aviationwx_bridge.Station.Times.{WasReported, run_posts_reported}
use aviationwx_bridge.Station.Health.{status_snapshot, weather_subsystem_health}
use aviationwx_bridge.Station.Health.Blame.{
  level_by_stations, map_level, weather_subsystem_health_lem,
}

abbrev text : Name → String
text [] = ""
text (c ∷ s) = "station"

abbrev keep_payload : ℕ → Option ℕ
keep_payload n = some n

abbrev as_it_is : Name → Name
as_it_is s = s

abbrev no_transport : WeatherErr → Bool
no_transport e = false

abbrev davis_id : Name
davis_id = b'd' ∷ []

abbrev first_id : Name
first_id = b'e' ∷ []

abbrev second_id : Name
second_id = b'f' ∷ []

abbrev station_of : Name → Name → Station
station_of id type = record {
  id = id;
  name = id;
  type = type;
  enabled = true;
  host = b'h' ∷ [];
  poll_interval_seconds = pos 0;
  txid = some (pos 1);
  listen_addr = [];
  listen_path = [];
  dialect = [];
}

abbrev configuration : List Station
configuration =
    station_of davis_id davis
    ∷ station_of first_id interceptor
    ∷ station_of second_id interceptor
    ∷ []

abbrev observation : Observation
observation = record {
  observed_at = 100 * second;
  source_id = "station";
  provider = "davis";
  provider_meta = 0;
}

abbrev live : Attempt
live = record { asked = 101 * second; result = none; done = 101 * second }

abbrev env : TickEnv
env = record {
  now = 101 * second;
  configured = true;
  flush = λ i. live;
  flush_now = 101 * second;
  live = live;
}

abbrev events : List Event
events =
    sync_event none configuration
    ∷ tick_event env davis_id (polled observation none)
    ∷ tick_event env davis_id (polled (record observation { observed_at = 0 }) none)
    ∷ []

-- the observation with a time is posted, that without one is not
posted_once :
    (run text as_it_is keep_payload no_transport events new_station_manager).polling.delivery.sent
    ≡ (weather_request_from_obs observation, none) ∷ []
unfolding run apply sync_from_config sync_polling sync_workers sync_worker should_run_poll_worker
    keep_workers new_station_manager tick post_observation allow_attempt flush_ring probe_due
    retain_stations new_weather_uplink flush_ready flush_loop after_live note_weather_post_ok
    weather_request_from_obs retain_sources keep_sources new_outbound_ring pop_ready prune
    prune_items select
posted_once = refl

sync_from_config_lem_example :
    let before_sync = run text as_it_is keep_payload no_transport events new_station_manager in
    find davis_id (sync_from_config text as_it_is none configuration before_sync).polling.workers
    ≡ worker_for (find davis_id before_sync.polling.workers) (find_station davis_id configuration)
sync_from_config_lem_example =
    sync_from_config_lem text as_it_is keep_payload no_transport events none configuration davis_id
      (refl, (refl, (refl, tt)))

own_ids : HasOwnIds configuration
own_ids = (
  (λ t k. elim k [
    | inl e ↦ subst (IsOther (station_of davis_id davis)) e (refl, refl)
    | inr (inl e) ↦ subst (IsOther (station_of davis_id davis)) e (refl, refl)
    | inr (inr x) ↦ absurd x
  ]),
  (
    (λ t k. elim k [
      | inl e ↦ subst (IsOther (station_of first_id interceptor)) e (refl, refl)
      | inr x ↦ absurd x
    ]),
    ((λ t k. absurd k), tt),
  ),
)

-- the second listener has no path left
second_is_shown :
    has_route second_id
      (route_all as_it_is default_listen_addr (enabled_stations configuration) ([], [])).0
    ≡ false
unfolding route_all sort_stations listening normalize_station_defaults route trim_space
second_is_shown = refl

sync_interceptor_hub_lem_example :
    let r = sync_interceptor_hub as_it_is none configuration none [] in
    ((st : Station)
      → IsIn st configuration
      → listens st ≡ true
      → IsServed (normalize_station_defaults st) r.0 ⊎ IsBroken st.id r.1)
    × ServesOnly configuration r.0
sync_interceptor_hub_lem_example =
    sync_interceptor_hub_lem as_it_is none configuration none [] own_ids

weather_subsystem_health_lem_example :
    let p = (run text as_it_is keep_payload no_transport events new_station_manager).polling in
    map_level (weather_subsystem_health text true 0 configuration p)
    ≡ some (level_by_stations true (status_snapshot text 0 configuration p))
weather_subsystem_health_lem_example =
    weather_subsystem_health_lem text true 0 (station_of davis_id davis)
      (station_of first_id interceptor ∷ station_of second_id interceptor ∷ [])
      (run text as_it_is keep_payload no_transport events new_station_manager).polling

run_posts_reported_example :
    Holds
      (WasReported events)
      (run text as_it_is keep_payload no_transport events new_station_manager).polling.delivery
run_posts_reported_example = run_posts_reported text as_it_is keep_payload no_transport events
