-- ===== src/Config/Service/Operations.antt =====
-- The operations of the configuration service as data, and when its memory and its files agree.
use aviationwx_bridge.Prelude.{Bool, List, Option, [], some, true, ◌&&◌, ◌∷◌, ◌≡◌}
use aviationwx_bridge.Queue.Names.{Name, is_some}
use aviationwx_bridge.Queue.Names.Table.{Table}
use aviationwx_bridge.Config.Values.{Camera, GlobalSettings, Station}
use aviationwx_bridge.Config.Files.{Files, SaveEnv, WriteAnswer}
use aviationwx_bridge.Config.Files.Agreement.{Agrees, IsWhole}
use aviationwx_bridge.Config.Station.{normalize_station_defaults}
use aviationwx_bridge.Config.Service.{
  GlobalUpdate, Library, Service, add_camera, config_path, delete_camera, update_camera,
  update_global, valid_id,
}
use aviationwx_bridge.Config.Service.Stations.{
  add_station, delete_station, update_station, valid_station,
}

-- an operation of a client, with what the disk answers
pub data Op (J : Type 0) : Type 0 where
  add_camera_op : SaveEnv J → Camera → Op J
  update_camera_op : SaveEnv J → Name → (Camera → Option Camera) → Op J
  delete_camera_op : Bool → Name → Op J
  add_station_op : SaveEnv J → Station → Op J
  update_station_op : SaveEnv J → Name → (Station → Option Station) → Op J
  delete_station_op : Bool → Name → Op J
  update_global_op : WriteAnswer J → GlobalUpdate → Op J

-- no write is cut short
abbrev pub IsWholeOp : {J : Type 0} → Op J → Type 0
IsWholeOp (add_camera_op env cam) = IsWhole env.write
IsWholeOp (update_camera_op env id fn) = IsWhole env.write
IsWholeOp (delete_camera_op can_remove id) = Unit
IsWholeOp (add_station_op env st) = IsWhole env.write
IsWholeOp (update_station_op env id fn) = IsWhole env.write
IsWholeOp (delete_station_op can_remove id) = Unit
IsWholeOp (update_global_op answer fn) = IsWhole answer

-- a change of the settings writes nothing through a pointer that it shares with the service
abbrev pub WritesOwn : {J : Type 0} → Op J → Type 0
WritesOwn (add_camera_op env cam) = Unit
WritesOwn (update_camera_op env id fn) = Unit
WritesOwn (delete_camera_op can_remove id) = Unit
WritesOwn (add_station_op env st) = Unit
WritesOwn (update_station_op env id fn) = Unit
WritesOwn (delete_station_op can_remove id) = Unit
WritesOwn (update_global_op answer fn) = (g : GlobalSettings) → (fn g).0 ≡ g

module _ {J : Type 0} (lib : Library J) where
  unfoldable pub apply : Op J → Service J → Service J
  apply (add_camera_op env cam) s = (add_camera lib env cam s).0
  apply (update_camera_op env id fn) s = (update_camera lib env id fn s).0
  apply (delete_camera_op can_remove id) s = (delete_camera lib can_remove id s).0
  apply (add_station_op env st) s = (add_station lib env st s).0
  apply (update_station_op env id fn) s = (update_station lib env id fn s).0
  apply (delete_station_op can_remove id) s = (delete_station lib can_remove id s).0
  apply (update_global_op answer fn) s = (update_global lib answer fn s).0

  unfoldable pub run : List (Op J) → Service J → Service J
  run [] s = s
  run (op ∷ ops) s = run ops (apply op s)

  abbrev pub IsGoodCamera : Camera → Type 0
  IsGoodCamera c = (valid_id lib c.id && is_some (config_path lib c.id)) ≡ true

  abbrev pub IsGoodStation : Station → Type 0
  IsGoodStation st =
      ((valid_station lib st && is_some (config_path lib st.id)) ≡ true)
      × (normalize_station_defaults st ≡ st)

  abbrev pub CamerasAgree : Table Camera → Files J → Type 0
  CamerasAgree cams fs = Agrees lib.encode_camera (λ c. c.id) IsGoodCamera cams fs

  abbrev pub StationsAgree : Table Station → Files J → Type 0
  StationsAgree sts fs = Agrees lib.encode_station (λ st. st.id) IsGoodStation sts fs

  abbrev pub GlobalAgrees : GlobalSettings → Option J → Type 0
  GlobalAgrees g file = (c : J) × (file ≡ some c) × (lib.encode_global g ≡ some c)

  abbrev pub IsInSync : Service J → Type 0
  IsInSync s =
      CamerasAgree s.cameras s.camera_files
      × StationsAgree s.stations s.station_files
      × GlobalAgrees s.global s.global_file
