-- ===== src/Config/Service/Stations.antt =====
-- internal/config/station_service.go: the stations of the service.
use aviationwx_bridge.Prelude.{
  Bool, Option, [], false, if◌then◌else◌, none, not, some, true, ◌++◌, ◌∷◌,
}
use aviationwx_bridge.Queue.Names.{Name, is_some, name_eq}
use aviationwx_bridge.Queue.Names.Table.{delete, find, store}
use aviationwx_bridge.Config.Ids.{allocate_unique_id}
use aviationwx_bridge.Config.Values.{Station}
use aviationwx_bridge.Config.Upload.{trim_space}
use aviationwx_bridge.Config.Files.{Files, SaveEnv, remove_file, save_at}
use aviationwx_bridge.Config.Station.{normalize_station_defaults, validate_station}
use aviationwx_bridge.Config.Service.{
  ConfigEvent, Library, Service, config_path, station_added, station_deleted, station_updated,
  valid_id,
}

-- "station"
abbrev pub station_word : Name
station_word = b's' ∷ b't' ∷ b'a' ∷ b't' ∷ b'i' ∷ b'o' ∷ b'n' ∷ []

module _ {J : Type 0} (lib : Library J) where
  unfoldable pub get_station : Name → Service J → Option Station
  get_station id s = if valid_id lib id then find id s.stations else none

  unfoldable pub save_station_file : SaveEnv J → Station → Files J → Files J × Bool
  save_station_file env st files = save_at env (config_path lib st.id) (lib.encode_station st) files

  abbrev pub keep_station :
      Station → ConfigEvent → Files J × Bool → Service J → Service J × Option Station
  keep_station st event (files, true) s = (
    record s {
      station_files = files;
      stations = store st.id st s.stations;
      events = s.events ++ (event ∷ []);
    },
    some st,
  )
  keep_station st event (files, false) s = (record s { station_files = files }, none)

  abbrev pub save_station :
      SaveEnv J → ConfigEvent → Station → Service J → Service J × Option Station
  save_station env event st s = keep_station st event (save_station_file env st s.station_files) s

  abbrev pub valid_station : Station → Bool
  valid_station st = validate_station lib.paths.is_local lib.split st

  -- the id that `AddStation` gives a station without one
  abbrev pub with_station_id : Station → Service J → Station
  with_station_id st s =
      if name_eq st.id []
      then record st {
        id = allocate_unique_id lib.lower station_word (λ id. is_some (find id s.stations)) st.name;
      }
      else st

  unfoldable pub add_station : SaveEnv J → Station → Service J → Service J × Option Station
  add_station env given s =
      let st = normalize_station_defaults (with_station_id given s) in
      let saved = save_station env (station_added st.id) st s in
      if name_eq (trim_space given.name) []
      then (s, none)
      else if not (valid_station st)
      then (s, none)
      else if is_some (find st.id s.stations)
      then (s, none)
      else saved

  abbrev pub change_station :
      SaveEnv J → Name → Option Station → Service J → Service J × Option Station
  change_station env id none s = (s, none)
  change_station env id (some updated) s =
      let st = normalize_station_defaults (record updated { id = id }) in
      let saved = save_station env (station_updated id) st s in
      if valid_station st then saved else (s, none)

  abbrev pub update_found_station :
      SaveEnv J
      → Name
      → (Station → Option Station)
      → Option Station
      → Service J
      → Service J × Option Station
  update_found_station env id fn none s = (s, none)
  update_found_station env id fn (some st) s = change_station env id (fn st) s

  unfoldable pub update_station :
      SaveEnv J → Name → (Station → Option Station) → Service J → Service J × Option Station
  update_station env id fn s =
      let r = update_found_station env id fn (find id s.stations) s in
      if valid_id lib id then r else (s, none)

  abbrev pub forget_station : Name → Files J × Bool → Service J → Service J × Bool
  forget_station id (files, true) s = (
    record s {
      station_files = files;
      stations = delete id s.stations;
      events = s.events ++ (station_deleted id ∷ []);
    },
    true,
  )
  forget_station id (files, false) s = (s, false)

  abbrev pub delete_station_at : Bool → Name → Option Name → Service J → Service J × Bool
  delete_station_at can_remove id none s = (s, false)
  delete_station_at can_remove id (some path) s =
      forget_station id (remove_file can_remove path s.station_files) s

  unfoldable pub delete_station : Bool → Name → Service J → Service J × Bool
  delete_station can_remove id s =
      let r = delete_station_at can_remove id (config_path lib id) s in
      if not (valid_id lib id)
      then (s, false)
      else if is_some (find id s.stations)
      then r
      else (s, false)
