-- ===== src/Config/Service/Sync/Stations.antt =====
-- The operations on stations keep memory and files in agreement.
use aviationwx_bridge.Prelude.{
  Bool, Bool-cases, Option, [], false, inl, inr, none, refl, some, true, ◌≡◌,
}
use aviationwx_bridge.Queue.Names.{Name, is_some, name_eq}
use aviationwx_bridge.Queue.Names.Table.{find}
use aviationwx_bridge.Config.Values.{Station}
use aviationwx_bridge.Config.Upload.{trim_space}
use aviationwx_bridge.Config.Files.{Files, SaveEnv, remove_file}
use aviationwx_bridge.Config.Files.Laws.{contained_config_path-cases}
use aviationwx_bridge.Config.Files.Agreement.{
  AfterDelete, AfterSave, IsWhole, path_of, remove_file-AfterDelete, save_at-AfterSave,
}
use aviationwx_bridge.Config.Station.{normalize_station_defaults}
use aviationwx_bridge.Config.Station.Defaults.{normalize_station_defaults_twice}
use aviationwx_bridge.Config.Service.{
  ConfigEvent, Library, Service, config_path, station_added, station_updated, valid_id,
}
use aviationwx_bridge.Config.Service.Stations.{
  add_station, change_station, delete_station, delete_station_at, forget_station, keep_station,
  save_station, save_station_file, update_found_station, update_station, valid_station,
  with_station_id,
}
use aviationwx_bridge.Config.Service.Operations.{IsGoodStation, IsInSync}

module _ {J : Type 0} (lib : Library J) where
  keep_station-IsInSync :
      (st : Station) (event : ConfigEvent) (r : Files J × Bool) (s : Service J)
      → IsInSync lib s
      → AfterSave lib.encode_station (λ t. t.id) (IsGoodStation lib) st.id st s.stations r
      → IsInSync lib (keep_station lib st event r s).0
  keep_station-IsInSync st event (fs, true) s h k = (h.0, k, h.2)
  keep_station-IsInSync st event (fs, false) s h k = (h.0, k, h.2)

  good :
      (st : Station)
      → valid_station lib st ≡ true
      → normalize_station_defaults st ≡ st
      → config_path lib st.id ≡ some (path_of st.id)
      → IsGoodStation lib st
  good st v n p = (rw (v, p) refl, n)

  save_station-IsInSync :
      (env : SaveEnv J) (event : ConfigEvent) (st : Station) (s : Service J)
      → IsWhole env.write
      → valid_station lib st ≡ true
      → normalize_station_defaults st ≡ st
      → IsInSync lib s
      → IsInSync lib (save_station lib env event st s).0
  unfolding save_station_file
  save_station-IsInSync env event st s w v n h =
      keep_station-IsInSync st event (save_station_file lib env st s.station_files) s h (
        save_at-AfterSave lib.encode_station (λ t. t.id) (IsGoodStation lib) env lib.paths st.id st
          s.stations s.station_files w refl (good st v n) h.1)

  -- a station with its defaults is saved if it is valid
  save_normal-IsInSync :
      (env : SaveEnv J) (event : ConfigEvent) (st : Station) (s : Service J)
      → IsWhole env.write
      → valid_station lib (normalize_station_defaults st) ≡ true
      → IsInSync lib s
      → IsInSync lib (save_station lib env event (normalize_station_defaults st) s).0
  save_normal-IsInSync env event st s w v h =
      save_station-IsInSync env event (normalize_station_defaults st) s w v
        (normalize_station_defaults_twice st) h

  change_station-IsInSync :
      (env : SaveEnv J) (id : Name) (o : Option Station) (s : Service J)
      → IsWhole env.write
      → IsInSync lib s
      → IsInSync lib (change_station lib env id o s).0
  change_station-IsInSync env id none s w h = h
  change_station-IsInSync env id (some t) s w h =
      let st = record t { id = id } in
      elim (Bool-cases (valid_station lib (normalize_station_defaults st))) [
        | inl v ↦ rw v (save_normal-IsInSync env (station_updated id) st s w v h)
        | inr v ↦ rw v h
      ]

  update_found_station-IsInSync :
      (env : SaveEnv J) (id : Name) (fn : Station → Option Station) (o : Option Station)
      (s : Service J)
      → IsWhole env.write
      → IsInSync lib s
      → IsInSync lib (update_found_station lib env id fn o s).0
  update_found_station-IsInSync env id fn none s w h = h
  update_found_station-IsInSync env id fn (some t) s w h =
      change_station-IsInSync env id (fn t) s w h

  forget_station-IsInSync :
      (id : Name) (r : Files J × Bool) (s : Service J)
      → IsInSync lib s
      → AfterDelete lib.encode_station (λ t. t.id) (IsGoodStation lib) id s.stations r
      → IsInSync lib (forget_station lib id r s).0
  forget_station-IsInSync id (fs, true) s h k = (h.0, k, h.2)
  forget_station-IsInSync id (fs, false) s h k = h

  delete_station_at-IsInSync :
      (can_remove : Bool) (id : Name) (s : Service J)
      → IsInSync lib s
      → IsInSync lib (delete_station_at lib can_remove id (config_path lib id) s).0
  delete_station_at-IsInSync can_remove id s h = elim (contained_config_path-cases lib.paths id) [
    | inl p ↦ rw p h
    | inr p ↦ rw p (
        forget_station-IsInSync id (remove_file can_remove (path_of id) s.station_files) s h (
          remove_file-AfterDelete lib.encode_station (λ t. t.id) (IsGoodStation lib) can_remove id
            s.stations s.station_files h.1))
  ]

  pub add_station-IsInSync :
      (env : SaveEnv J) (given : Station) (s : Service J)
      → IsWhole env.write
      → IsInSync lib s
      → IsInSync lib (add_station lib env given s).0
  unfolding add_station
  add_station-IsInSync env given s w h =
      let named = with_station_id lib given s in
      let st = normalize_station_defaults named in
      elim (Bool-cases (name_eq (trim_space given.name) [])) [
        | inl e ↦ rw e h
        | inr e ↦ elim (Bool-cases (valid_station lib st)) [
          | inr v ↦ rw (e, v) h
          | inl v ↦ elim (Bool-cases (is_some (find st.id s.stations))) [
            | inl t ↦ rw (e, v, t) h
            | inr t ↦ rw (e, v, t) (save_normal-IsInSync env (station_added st.id) named s w v h)
          ]
        ]
      ]

  pub update_station-IsInSync :
      (env : SaveEnv J) (id : Name) (fn : Station → Option Station) (s : Service J)
      → IsWhole env.write
      → IsInSync lib s
      → IsInSync lib (update_station lib env id fn s).0
  unfolding update_station
  update_station-IsInSync env id fn s w h = elim (Bool-cases (valid_id lib id)) [
    | inl v ↦ rw v (update_found_station-IsInSync env id fn (find id s.stations) s w h)
    | inr v ↦ rw v h
  ]

  pub delete_station-IsInSync :
      (can_remove : Bool) (id : Name) (s : Service J)
      → IsInSync lib s
      → IsInSync lib (delete_station lib can_remove id s).0
  unfolding delete_station
  delete_station-IsInSync can_remove id s h = elim (Bool-cases (valid_id lib id)) [
    | inr v ↦ rw v h
    | inl v ↦ elim (Bool-cases (is_some (find id s.stations))) [
      | inr t ↦ rw (v, t) h
      | inl t ↦ rw (v, t) (delete_station_at-IsInSync can_remove id s h)
    ]
  ]
