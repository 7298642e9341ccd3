-- ===== src/Config/Service.antt =====
-- internal/config/service.go: the configuration in memory and in its files. Each operation runs under
-- the lock and is one step; the callers change the copies that they get by replacing fields, so that a
-- copy is a value here. The state keeps the events that were sent to the listeners. `J` is what a file
-- can hold; a failed operation gives no value.
pub mod Examples
pub mod Stations
pub mod Loading
pub mod Operations
pub mod Sync
pub mod Restart
pub mod Frames
pub mod View
pub mod Refinement
pub mod Reset
pub mod Accounts
use aviationwx_bridge.Prelude.{
  Bool, List, Option, [], false, if◌then◌else◌, none, not, some, true, ℕ, ◌++◌, ◌∷◌,
}
use aviationwx_bridge.Queue.Names.{Name, is_some, name_eq, name_lt}
use aviationwx_bridge.Queue.Names.Table.{Table, delete, find, store}
use aviationwx_bridge.Config.Ids.{allocate_unique_id, validate_config_file_id}
use aviationwx_bridge.Config.Values.{Camera, GlobalSettings, Station}
use aviationwx_bridge.Config.Upload.{check_duplicate_upload, trim_space}
use aviationwx_bridge.Config.Files.{
  Files, Paths, SaveEnv, WriteAnswer, contained_config_path, cut_short, not_opened, remove_file,
  save_at, written,
}
use aviationwx_bridge.Config.Station.{StationJson}
use aviationwx_bridge.Config.Api.{validate_api_settings}

-- what the libraries give: the lower case of a character, the paths, `net.SplitHostPort`, `url.Parse`,
-- and the writing and reading of JSON, where none is an error
pub record Library (J : Type 0) : Type 0 where
  pub lower : ℕ → ℕ
  pub paths : Paths
  pub split : Name → Option (Name × Name)
  pub parse_url : Name → Option (Name × Name)
  pub encode_camera : Camera → Option J
  pub decode_camera : J → Option Camera
  pub encode_station : Station → Option J
  pub decode_station : J → Option StationJson
  pub encode_global : GlobalSettings → Option J
  pub decode_global : J → Option GlobalSettings

pub data ConfigEvent : Type 0 where
  camera_added camera_updated camera_deleted : Name → ConfigEvent
  station_added station_updated station_deleted : Name → ConfigEvent
  global_updated : ConfigEvent

pub record Service (J : Type 0) : Type 0 where
  pub global : GlobalSettings
  pub cameras : Table Camera
  pub stations : Table Station
  pub events : List ConfigEvent
  pub global_file : Option J
  pub global_backup : Option J
  pub camera_files : Files J
  pub station_files : Files J

-- "camera"
abbrev pub camera_word : Name
camera_word = b'c' ∷ b'a' ∷ b'm' ∷ b'e' ∷ b'r' ∷ b'a' ∷ []

-- what a change of the settings leaves behind their pointers, and the settings that it asks for
abbrev pub GlobalUpdate : Type 0
GlobalUpdate = GlobalSettings → GlobalSettings × Option GlobalSettings

module _ {J : Type 0} (lib : Library J) where
  abbrev pub config_path : Name → Option Name
  config_path id = contained_config_path lib.paths id

  abbrev pub valid_id : Name → Bool
  valid_id id = validate_config_file_id lib.paths.is_local id

  -- `GetCamera`
  unfoldable pub get_camera : Name → Service J → Option Camera
  get_camera id s = if valid_id id then find id s.cameras else none

  -- `sort.Slice` by id; the ids are distinct, so every sort gives this list
  abbrev pub insert_by_id : Camera → List Camera → List Camera
  insert_by_id c [] = c ∷ []
  insert_by_id c (d ∷ ds) =
      let rest = insert_by_id c ds in if name_lt d.id c.id then d ∷ rest else c ∷ d ∷ ds

  -- `ListCameras`
  abbrev pub sort_cameras : Table Camera → List Camera
  sort_cameras [] = []
  sort_cameras (p ∷ ps) = insert_by_id p.1 (sort_cameras ps)

  unfoldable pub list_cameras : Service J → List Camera
  list_cameras s = sort_cameras s.cameras

  -- `saveCameraFile`
  unfoldable pub save_camera_file : SaveEnv J → Camera → Files J → Files J × Bool
  save_camera_file env cam files = save_at env (config_path cam.id) (lib.encode_camera cam) files

  -- the end of `AddCamera` and `UpdateCamera`: what was saved is taken into memory
  abbrev pub keep_camera :
      Camera → ConfigEvent → Files J × Bool → Service J → Service J × Option Camera
  keep_camera cam event (files, true) s = (
    record s {
      camera_files = files;
      cameras = store cam.id cam s.cameras;
      events = s.events ++ (event ∷ []);
    },
    some cam,
  )
  keep_camera cam event (files, false) s = (record s { camera_files = files }, none)

  unfoldable pub save_camera :
      SaveEnv J → Name → ConfigEvent → Camera → Service J → Service J × Option Camera
  save_camera env exclude event cam s =
      let saved = keep_camera cam event (save_camera_file env cam s.camera_files) s in
      if check_duplicate_upload lib.lower exclude cam.upload s.cameras then (s, none) else saved

  -- the id that `AddCamera` gives a camera without one
  abbrev pub with_camera_id : Camera → Service J → Camera
  with_camera_id cam s =
      if name_eq cam.id []
      then record cam {
        id = allocate_unique_id lib.lower camera_word (λ id. is_some (find id s.cameras)) cam.name;
      }
      else cam

  unfoldable pub add_camera : SaveEnv J → Camera → Service J → Service J × Option Camera
  add_camera env given s =
      let cam = with_camera_id given s in
      let saved = save_camera env [] (camera_added cam.id) cam s in
      if name_eq (trim_space given.name) []
      then (s, none)
      else if not (valid_id cam.id)
      then (s, none)
      else if is_some (find cam.id s.cameras)
      then (s, none)
      else saved

  -- the camera that the caller's function makes of the copy, if it gives no error
  abbrev pub change_camera :
      SaveEnv J → Name → Option Camera → Service J → Service J × Option Camera
  change_camera env id none s = (s, none)
  change_camera env id (some updated) s =
      save_camera env id (camera_updated id) (record updated { id = id }) s

  abbrev pub update_found :
      SaveEnv J
      → Name
      → (Camera → Option Camera)
      → Option Camera
      → Service J
      → Service J × Option Camera
  update_found env id fn none s = (s, none)
  update_found env id fn (some cam) s = change_camera env id (fn cam) s

  unfoldable pub update_camera :
      SaveEnv J → Name → (Camera → Option Camera) → Service J → Service J × Option Camera
  update_camera env id fn s =
      let r = update_found env id fn (find id s.cameras) s in if valid_id id then r else (s, none)

  abbrev pub forget_camera : Name → Files J × Bool → Service J → Service J × Bool
  forget_camera id (files, true) s = (
    record s {
      camera_files = files;
      cameras = delete id s.cameras;
      events = s.events ++ (camera_deleted id ∷ []);
    },
    true,
  )
  forget_camera id (files, false) s = (s, false)

  abbrev pub delete_at : Bool → Name → Option Name → Service J → Service J × Bool
  delete_at can_remove id none s = (s, false)
  delete_at can_remove id (some path) s =
      forget_camera id (remove_file can_remove path s.camera_files) s

  unfoldable pub delete_camera : Bool → Name → Service J → Service J × Bool
  delete_camera can_remove id s =
      let r = delete_at can_remove id (config_path id) s in
      if not (valid_id id)
      then (s, false)
      else if is_some (find id s.cameras)
      then r
      else (s, false)

  -- one of the two writes of global.json
  abbrev pub write_global : WriteAnswer J → Option J → Option J → Option J × Bool
  write_global answer none old = (old, false)
  write_global written (some c) old = (some c, true)
  write_global not_opened (some c) old = (old, false)
  write_global (cut_short part) (some c) old = (some part, false)

  abbrev pub keep_global : GlobalSettings → Option J × Bool → Service J → Service J × Bool
  keep_global g (file, true) s = (
    record s { global_file = file; global = g; events = s.events ++ (global_updated ∷ []) },
    true,
  )
  keep_global g (file, false) s = (record s { global_file = file }, false)

  abbrev pub change_global : WriteAnswer J → Option GlobalSettings → Service J → Service J × Bool
  change_global answer none s = (s, false)
  change_global answer (some g) s =
      let r = keep_global g (write_global answer (lib.encode_global g) s.global_file) s in
      if validate_api_settings lib.parse_url g.api then r else (s, false)

  -- `UpdateGlobal`. The copy that `fn` gets shares what its pointers point to with the settings of the
  -- service: `fn` gives these settings as it leaves them, and the copy, none for an error.
  unfoldable pub update_global : WriteAnswer J → GlobalUpdate → Service J → Service J × Bool
  update_global answer fn s =
      let r = fn s.global in change_global answer r.1 (record s { global = r.0 })

  -- the backup of `saveGlobal`
  abbrev pub back_up_global : WriteAnswer J → Option J → Option J → Option J
  back_up_global answer none backup = backup
  back_up_global written (some old) backup = some old
  back_up_global not_opened (some old) backup = backup
  back_up_global (cut_short part) (some old) backup = some part

  unfoldable pub save_global : SaveEnv J → Service J → Service J × Bool
  save_global env s =
      let r = write_global env.write (lib.encode_global s.global) s.global_file in
      (
        record s {
          global_backup = back_up_global env.backup s.global_file s.global_backup;
          global_file = r.0;
        },
        r.1,
      )
