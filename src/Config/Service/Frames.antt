-- ===== src/Config/Service/Frames.antt =====
-- What the operations on stations and on the global settings leave alone.
use aviationwx_bridge.Prelude.{Bool, Option, arith, false, none, refl, some, true, ◌≡◌}
use aviationwx_bridge.Queue.Names.{Name}
use aviationwx_bridge.Queue.Names.Table.{find}
use aviationwx_bridge.Config.Values.{GlobalSettings, Station}
use aviationwx_bridge.Config.Files.{Files, SaveEnv, WriteAnswer, remove_file}
use aviationwx_bridge.Config.Station.{normalize_station_defaults}
use aviationwx_bridge.Config.Service.{
  ConfigEvent, GlobalUpdate, Library, Service, change_global, config_path, keep_global,
  station_added, station_updated, update_global, write_global,
}
use aviationwx_bridge.Config.Service.Stations.{
  add_station, change_station, delete_station, delete_station_at, forget_station, keep_station,
  save_station_file, update_found_station, update_station, with_station_id,
}

module _ {J : Type 0} (lib : Library J) where
  keep_station-cameras :
      (st : Station) (event : ConfigEvent) (r : Files J × Bool) (s : Service J)
      → (keep_station lib st event r s).0.cameras ≡ s.cameras
  keep_station-cameras st event (fs, true) s = refl
  keep_station-cameras st event (fs, false) s = refl

  pub add_station-cameras :
      (env : SaveEnv J) (given : Station) (s : Service J)
      → (add_station lib env given s).0.cameras ≡ s.cameras
  unfolding add_station
  add_station-cameras env given s =
      let st = normalize_station_defaults (with_station_id lib given s) in
      let kept =
        keep_station-cameras st (station_added st.id) (save_station_file lib env st s.station_files)
          s in
      ground arith

  change_station-cameras :
      (env : SaveEnv J) (id : Name) (o : Option Station) (s : Service J)
      → (change_station lib env id o s).0.cameras ≡ s.cameras
  change_station-cameras env id none s = refl
  change_station-cameras env id (some t) s =
      let st = normalize_station_defaults (record t { id = id }) in
      let kept =
        keep_station-cameras st (station_updated id) (save_station_file lib env st s.station_files)
          s in
      ground arith

  update_found_station-cameras :
      (env : SaveEnv J) (id : Name) (fn : Station → Option Station) (o : Option Station)
      (s : Service J)
      → (update_found_station lib env id fn o s).0.cameras ≡ s.cameras
  update_found_station-cameras env id fn none s = refl
  update_found_station-cameras env id fn (some t) s = change_station-cameras env id (fn t) s

  pub update_station-cameras :
      (env : SaveEnv J) (id : Name) (fn : Station → Option Station) (s : Service J)
      → (update_station lib env id fn s).0.cameras ≡ s.cameras
  unfolding update_station
  update_station-cameras env id fn s =
      let found = update_found_station-cameras env id fn (find id s.stations) s in ground arith

  forget_station-cameras :
      (id : Name) (r : Files J × Bool) (s : Service J)
      → (forget_station lib id r s).0.cameras ≡ s.cameras
  forget_station-cameras id (fs, true) s = refl
  forget_station-cameras id (fs, false) s = refl

  delete_station_at-cameras :
      (can_remove : Bool) (id : Name) (path : Option Name) (s : Service J)
      → (delete_station_at lib can_remove id path s).0.cameras ≡ s.cameras
  delete_station_at-cameras can_remove id none s = refl
  delete_station_at-cameras can_remove id (some path) s =
      forget_station-cameras id (remove_file can_remove path s.station_files) s

  pub delete_station-cameras :
      (can_remove : Bool) (id : Name) (s : Service J)
      → (delete_station lib can_remove id s).0.cameras ≡ s.cameras
  unfolding delete_station
  delete_station-cameras can_remove id s =
      let at_path = delete_station_at-cameras can_remove id (config_path lib id) s in ground arith

  keep_global-cameras :
      (g : GlobalSettings) (r : Option J × Bool) (s : Service J)
      → (keep_global lib g r s).0.cameras ≡ s.cameras
  keep_global-cameras g (file, true) s = refl
  keep_global-cameras g (file, false) s = refl

  change_global-cameras :
      (answer : WriteAnswer J) (o : Option GlobalSettings) (s : Service J)
      → (change_global lib answer o s).0.cameras ≡ s.cameras
  change_global-cameras answer none s = refl
  change_global-cameras answer (some g) s =
      let kept =
        keep_global-cameras g (write_global lib answer (lib.encode_global g) s.global_file) s in
      ground arith

  pub update_global-cameras :
      (answer : WriteAnswer J) (fn : GlobalUpdate) (s : Service J)
      → (update_global lib answer fn s).0.cameras ≡ s.cameras
  unfolding update_global
  update_global-cameras answer fn s =
      change_global-cameras answer (fn s.global).1 (record s { global = (fn s.global).0 })
