-- ===== src/Station/Health.antt =====
-- `StatusSnapshot` and `WeatherSubsystemHealth` of internal/station/manager.go: what the bridge reports of
-- its stations. `healthy` and the like are the names of internal/bridgeapi.
pub mod Blame
use aviationwx_bridge.Prelude.{
  Bool, List, Option, String, [], false, if◌then◌else◌, is_zero, ltb, none, not, some, true, ℕ,
  ◌&&◌, ◌+◌, ◌==◌, ◌||◌, ◌∷◌,
}
use aviationwx_bridge.Queue.Names.{Name, is_some}
use aviationwx_bridge.Queue.Names.Table.{find}
use aviationwx_bridge.Config.Values.{Station}
use aviationwx_bridge.Station.Delivery.{PostStatus}
use aviationwx_bridge.Station.Status.{StationStatus, no_status, status_from_config}
use aviationwx_bridge.Station.Polling.{Polling}

pub record Shown : Type 0 where
  pub station : StationStatus
  pub post : PostStatus
  pub outbound_queued : ℕ

abbrev pub status_or_new : Station → Option StationStatus → StationStatus
status_or_new st none = status_from_config st no_status
status_or_new st (some s) = s

-- `StatusSnapshot`, with the length of the ring
unfoldable pub status_snapshot : (Name → String) → ℕ → List Station → Polling → List Shown
status_snapshot text queued [] p = []
status_snapshot text queued (st ∷ sts) p =
    record {
      station = status_or_new st (find st.id p.status);
      post = p.delivery.status (text st.id);
      outbound_queued = queued;
    }
    ∷ status_snapshot text queued sts p

pub data Level : Type 0 where
  operational degraded_level down : Level

-- the variables of the loop
pub record Tally : Type 0 where
  pub lan_ok : Bool
  pub post_ok : Bool
  pub degraded : Bool
  pub waiting : ℕ
  pub enabled : ℕ

abbrev pub post_error : Shown → Bool
post_error s =
    is_some s.post.last_post_error && is_zero s.post.last_post_at
    || not (is_zero s.post.last_post_at) && is_some s.post.last_post_error

-- the rest of a round, for an enabled station that does not wait for its transmitter
abbrev pub tally_live : Shown → Tally → Tally
tally_live s t = record t {
  enabled = t.enabled + 1;
  lan_ok = if not s.station.lan_ok && not (is_zero s.station.last_poll_at) then false else t.lan_ok;
  degraded = if s.station.degraded then true else t.degraded;
  post_ok = if post_error s then false else t.post_ok;
}

unfoldable pub tally_station : Shown → Tally → Tally
tally_station s t =
    if not s.station.enabled
    then t
    else if s.station.waiting_for_txid
    then record t { enabled = t.enabled + 1; waiting = t.waiting + 1 }
    else tally_live s t

unfoldable pub tally_all : List Shown → Tally → Tally
tally_all [] t = t
tally_all (s ∷ ss) t = tally_all ss (tally_station s t)

-- the status, where `configured` is whether the API is
unfoldable pub level_of : Bool → Tally → Level
level_of configured t =
    if not t.lan_ok
    then down
    else if ltb 0 t.enabled && (t.waiting == t.enabled || t.degraded)
    then degraded_level
    else if ltb 0 t.enabled && configured && not t.post_ok
    then degraded_level
    else operational

pub record SubsystemHealth : Type 0 where
  pub level : Level
  pub tally : Tally
  pub outbound_queued : ℕ
  pub wan_uplink_open : Bool

abbrev pub first_queued : List Shown → ℕ
first_queued [] = 0
first_queued (s ∷ ss) = s.outbound_queued

abbrev pub new_tally : Tally
new_tally = record { lan_ok = true; post_ok = true; degraded = false; waiting = 0; enabled = 0 }

-- `WeatherSubsystemHealth`, none without stations
unfoldable pub weather_subsystem_health :
    (Name → String) → Bool → ℕ → List Station → Polling → Option SubsystemHealth
weather_subsystem_health text configured queued [] p = none
weather_subsystem_health text configured queued (st ∷ sts) p =
    let shown = status_snapshot text queued (st ∷ sts) p in
    let t = tally_all shown new_tally in
    some (record {
      level = level_of configured t;
      tally = t;
      outbound_queued = first_queued shown;
      wan_uplink_open = p.delivery.uplink.is_open;
    })
