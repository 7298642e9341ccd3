-- ===== src/Config/Service/Loading.antt =====
-- The start of internal/config/service.go: `reload`, `loadStationsLocked` and `NewService`; and the
-- migration of an old installation, migrate.go.
use aviationwx_bridge.Prelude.{Bool, Option, [], false, if◌then◌else◌, none, some, true, ◌&&◌, ◌∷◌}
use aviationwx_bridge.Queue.Names.{Name, is_some}
use aviationwx_bridge.Queue.Names.Table.{Table, store}
use aviationwx_bridge.Config.Values.{
  Camera, GlobalSettings, Sntp, Station, default_global, default_sntp,
}
use aviationwx_bridge.Config.Settings.{option_map}
use aviationwx_bridge.Config.Upload.{normalize_upload_config}
use aviationwx_bridge.Config.Files.{File, Files, SaveEnv, is_config_file}
use aviationwx_bridge.Config.Station.{StationJson, normalize_station_defaults, unmarshal_station}
use aviationwx_bridge.Config.Service.{Library, Service, config_path, save_global, valid_id}
use aviationwx_bridge.Config.Service.Stations.{valid_station}

-- what `os.ReadDir` answers, and which files of the directory can be read
pub data DirAnswer : Type 0 where
  listed : (Name → Bool) → DirAnswer
  missing unreadable : DirAnswer

pub record LoadEnv : Type 0 where
  pub global_readable : Bool
  pub camera_dir : DirAnswer
  pub station_dir : DirAnswer

module _ {A : Type 0} where
  abbrev pub if_valid : Bool → A → Option A
  if_valid true a = some a
  if_valid false a = none

  abbrev pub take_in : (A → Name) → Option A → Table A → (Table A → Table A × Bool) → Table A × Bool
  take_in id_of none acc rest = (acc, false)
  take_in id_of (some a) acc rest = rest (store (id_of a) a acc)

module _ {J : Type 0} {A : Type 0} where
  -- the value that a file holds, if it can be read and passes its checks
  abbrev pub read_file : Bool → (J → Option A) → File J → Option A
  read_file readable use_text f = if readable then use_text f.content else none

  -- the loop over the entries of a directory, with whether it ends without an error
  unfoldable pub load_loop :
      (Name → Bool) → (J → Option A) → (A → Name) → Files J → Table A → Table A × Bool
  load_loop readable use_text id_of [] acc = (acc, true)
  load_loop readable use_text id_of (f ∷ fs) acc =
      let skipped = load_loop readable use_text id_of fs acc in
      let read =
        take_in id_of (read_file (readable f.name) use_text f) acc
          (load_loop readable use_text id_of fs) in
      if is_config_file f then read else skipped

  unfoldable pub load_dir :
      DirAnswer → (J → Option A) → (A → Name) → Files J → Table A → Table A × Bool
  load_dir (listed readable) use_text id_of fs acc = load_loop readable use_text id_of fs acc
  load_dir missing use_text id_of fs acc = (acc, true)
  load_dir unreadable use_text id_of fs acc = (acc, false)

module _ {J : Type 0} (lib : Library J) where
  unfoldable pub normalize_camera : Camera → Camera
  normalize_camera cam = record cam {
    upload = option_map (normalize_upload_config lib.lower) cam.upload;
  }

  -- the checks of one file in the loop of `reload`
  abbrev pub checked_camera : Option Camera → Option Camera
  checked_camera none = none
  checked_camera (some cam) =
      if_valid (valid_id lib cam.id && is_some (config_path lib cam.id)) (normalize_camera cam)

  unfoldable pub use_camera_text : J → Option Camera
  use_camera_text text = checked_camera (lib.decode_camera text)

  -- the checks of one file in the loop of `loadStationsLocked`
  abbrev pub checked_station : Option StationJson → Option Station
  checked_station none = none
  checked_station (some j) =
      let st = normalize_station_defaults (unmarshal_station j) in
      if_valid (valid_station lib st && is_some (config_path lib st.id)) st

  unfoldable pub use_station_text : J → Option Station
  use_station_text text = checked_station (lib.decode_station text)

  -- `loadStationsLocked`
  unfoldable pub load_stations : LoadEnv → Service J → Service J × Bool
  load_stations env s =
      let r = load_dir env.station_dir use_station_text (λ st. st.id) s.station_files s.stations in
      (record s { stations = r.0 }, r.1)

  abbrev pub then_stations : LoadEnv → Table Camera × Bool → Service J → Service J × Bool
  then_stations env (cams, true) s = load_stations env (record s { cameras = cams })
  then_stations env (cams, false) s = (record s { cameras = cams }, false)

  abbrev pub decoded_global : Option J → Option GlobalSettings
  decoded_global none = none
  decoded_global (some text) = lib.decode_global text

  abbrev pub then_cameras : LoadEnv → Option GlobalSettings → Service J → Service J × Bool
  then_cameras env none s = (s, false)
  then_cameras env (some g) s =
      then_stations env
        (load_dir env.camera_dir use_camera_text (λ c. c.id) s.camera_files s.cameras)
        (record s { global = g })

  unfoldable pub reload : LoadEnv → Service J → Service J × Bool
  reload env s =
      then_cameras env (if env.global_readable then decoded_global s.global_file else none) s

  -- the defaults of `NewService` after `reload`, with what `saveGlobal` answers
  abbrev pub with_sntp : Option Sntp → SaveEnv J → Service J → Service J × Bool
  with_sntp (some n) env s = (s, true)
  with_sntp none env s =
      save_global lib env (record s { global = record s.global { sntp = some default_sntp } })

  abbrev pub after_reload : SaveEnv J → Service J × Bool → Service J × Bool
  after_reload env (s, false) = save_global lib env (record s { global = default_global })
  after_reload env (s, true) = with_sntp s.global.sntp env s

  -- the service before `reload`, over the files; the settings in memory are not read before they are set
  abbrev pub empty_service : Option J → Option J → Files J → Files J → Service J
  empty_service global_file global_backup camera_files station_files = record {
    global = default_global;
    cameras = [];
    stations = [];
    events = [];
    global_file = global_file;
    global_backup = global_backup;
    camera_files = camera_files;
    station_files = station_files;
  }

  -- a new process over the files of an old one
  abbrev pub restarted : Service J → Service J
  restarted s = empty_service s.global_file s.global_backup s.camera_files s.station_files

  -- `NewService` once the directories are there; false for its error
  unfoldable pub new_service : LoadEnv → SaveEnv J → Service J → Service J × Bool
  new_service load save disk = after_reload save (reload load (restarted disk))
