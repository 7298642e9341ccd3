-- ===== src/Station/Sync.antt =====
-- `SyncFromConfig` and `Stop` of internal/station/manager.go: which stations are polled and listened to.
-- The stations are those of the configuration, one for each id, in the order of their ids. A worker that
-- is stopped has ended its poll before the new one starts.
pub mod Keeping
pub mod Workers
pub mod Events
mod Examples
use aviationwx_bridge.Prelude.{
  Bool, List, Option, String, [], false, if◌then◌else◌, none, not, some, true, zero_time, ◌&&◌,
  ◌==◌, ◌||◌, ◌∷◌,
}
use aviationwx_bridge.Queue.Names.{Int64, Name, is_some, name_eq, neg, pos}
use aviationwx_bridge.Queue.Names.Table.{Table, find, store}
use aviationwx_bridge.Config.Values.{Station}
use aviationwx_bridge.Config.Upload.{trim_space}
use aviationwx_bridge.Config.Station.{davis, ecowitt, interceptor}
use aviationwx_bridge.Station.Ring.{contains, new_outbound_ring, retain_sources}
use aviationwx_bridge.Station.Uplink.{new_weather_uplink}
use aviationwx_bridge.Station.Delivery.{Manager}
use aviationwx_bridge.Station.Status.{StationStatus, set_status, status_from_config}
use aviationwx_bridge.Station.Polling.{Polling}
use aviationwx_bridge.Station.Hub.{Hub, listening, sync_interceptor_hub}
use aviationwx_bridge.Station.Hub.Sorted.{listens}

pub record StationManager : Type 0 where
  pub polling : Polling
  pub hub : Option Hub

-- the map `wanted`
abbrev pub find_station : Name → List Station → Option Station
find_station id [] = none
find_station id (st ∷ sts) =
    let rest = find_station id sts in if name_eq st.id id then some st else rest

-- `shouldRunPollWorker`
unfoldable pub should_run_poll_worker : Station → Bool
should_run_poll_worker st =
    if not st.enabled
    then false
    else if name_eq st.type davis
    then is_some st.txid
    else if name_eq st.type ecowitt
    then not (name_eq (trim_space st.host) [])
    else false

abbrev pub same_int : Int64 → Int64 → Bool
same_int (pos n) (pos k) = n == k
same_int (pos n) (neg k) = false
same_int (neg n) (pos k) = false
same_int (neg n) (neg k) = n == k

abbrev pub same_txid : Option Int64 → Option Int64 → Bool
same_txid none none = true
same_txid none (some k) = false
same_txid (some n) none = false
same_txid (some n) (some k) = same_int n k

abbrev pub same_flag : Bool → Bool → Bool
same_flag true b = b
same_flag false b = not b

-- `samePollConfig`
unfoldable pub same_poll_config : Station → Station → Bool
same_poll_config a b =
    if not (name_eq a.host b.host && name_eq a.type b.type && same_flag a.enabled b.enabled)
    then false
    else if not (same_int a.poll_interval_seconds b.poll_interval_seconds)
    then false
    else same_txid a.txid b.txid

-- whether the worker of an id goes on, by what the configuration has for the id
unfoldable pub keeps : Station → Option Station → Bool
keeps w none = false
keeps w (some st) = should_run_poll_worker st && same_poll_config w st

-- the first loop, which stops workers
unfoldable pub keep_workers : List Station → Table Station → Table Station
keep_workers wanted [] = []
keep_workers wanted (p ∷ ps) =
    let rest = keep_workers wanted ps in
    if keeps p.1 (find_station p.0 wanted) then p ∷ rest else rest

-- `providerFor`, whether there is one
abbrev pub has_provider : Name → Bool
has_provider type = name_eq type davis || name_eq type ecowitt

-- a worker is started if none is running
abbrev pub start_worker : Station → Option Station → Table Station → Table Station
start_worker st (some running) ws = ws
start_worker st none ws = if has_provider st.type then store st.id st ws else ws

-- the guards of the second loop: enabled, not a listener, to be polled
abbrev pub start_if : Bool → Bool → Bool → Table Station → Table Station → Table Station
start_if enabled listens runs ws started =
    if not enabled then ws else if listens then ws else if not runs then ws else started

-- one round of the second loop
unfoldable pub sync_worker : Station → Table Station → Table Station
sync_worker st ws =
    start_if st.enabled (name_eq st.type interceptor) (should_run_poll_worker st) ws
      (start_worker st (find st.id ws) ws)

abbrev pub no_wait : StationStatus → StationStatus
no_wait s = record s { waiting_for_txid = false }

unfoldable pub sync_status : Station → Table StationStatus → Table StationStatus
sync_status st ss =
    let noted = set_status st.id (status_from_config st) ss in
    let listens = set_status st.id no_wait noted in
    if st.enabled && name_eq st.type interceptor then listens else noted

unfoldable pub sync_workers : List Station → Table Station → Table Station
sync_workers [] ws = ws
sync_workers (st ∷ sts) ws = sync_workers sts (sync_worker st ws)

unfoldable pub sync_statuses : List Station → Table StationStatus → Table StationStatus
sync_statuses [] ss = ss
sync_statuses (st ∷ sts) ss = sync_statuses sts (sync_status st ss)

-- the statuses of other ids are deleted
unfoldable pub keep_wanted : {A : Type 0} → List Station → Table A → Table A
keep_wanted wanted [] = []
keep_wanted wanted (p ∷ ps) =
    let rest = keep_wanted wanted ps in if is_some (find_station p.0 wanted) then p ∷ rest else rest

abbrev pub ids_of : (Name → String) → List Station → List String
ids_of text [] = []
ids_of text (st ∷ sts) = text st.id ∷ ids_of text sts

-- what the delivery forgets of other stations
unfoldable pub retain_stations : List String → Manager → Manager
retain_stations keep m = record m {
  ring = retain_sources m.ring keep;
  last_catchup_post = λ s. if contains s keep then m.last_catchup_post s else none;
  status = λ s.
      if contains s keep
      then m.status s
      else record { last_post_at = zero_time; last_post_error = none };
}

unfoldable pub sync_polling : (Name → String) → List Station → Polling → Polling
sync_polling text wanted p = record p {
  workers = sync_workers wanted (keep_workers wanted p.workers);
  status = keep_wanted wanted (sync_statuses wanted p.status);
  delivery = retain_stations (ids_of text wanted) p.delivery;
}

-- `SyncFromConfig`; `err` is what a listener that is started returns
unfoldable pub sync_from_config :
    (Name → String) → (Name → Name) → Option Name → List Station → StationManager → StationManager
sync_from_config text quote err wanted m =
    let p = sync_polling text wanted m.polling in
    let listening = sync_interceptor_hub quote err wanted m.hub p.status in
    record { polling = record p { status = listening.1 }; hub = listening.0 }

-- `NewManager`
unfoldable pub new_station_manager : StationManager
new_station_manager = record {
  polling = record {
    delivery = record {
      ring = new_outbound_ring;
      uplink = new_weather_uplink;
      last_catchup_post = λ id. none;
      status = λ id. record { last_post_at = zero_time; last_post_error = none };
      sent = [];
    };
    workers = [];
    status = [];
    recent_payloads = [];
    lan_fail_log_at = [];
  };
  hub = none;
}

-- `Stop`
unfoldable pub stop : StationManager → StationManager
stop m = record { polling = record m.polling { workers = [] }; hub = none }
