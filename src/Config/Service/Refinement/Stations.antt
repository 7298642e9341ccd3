-- ===== src/Config/Service/Refinement/Stations.antt =====
-- The operations on stations make the changes that their events announce.
use aviationwx_bridge.Prelude.{
  Bool, Bool-cases, Option, [], ap, false, inl, inr, none, refl, some, subst, sym, true, ◌++◌, ◌∙◌,
  ◌∷◌, ◌≡◌,
}
use aviationwx_bridge.Queue.Names.{Name, is_some, name_eq}
use aviationwx_bridge.Queue.Names.Table.{find}
use aviationwx_bridge.Config.Values.{Station}
use aviationwx_bridge.Config.Upload.{trim_space}
use aviationwx_bridge.Config.Files.{Files, SaveEnv, remove_file}
use aviationwx_bridge.Config.Station.{normalize_station_defaults}
use aviationwx_bridge.Config.Station.Defaults.{normalize_station_defaults-id}
use aviationwx_bridge.Config.Service.{
  ConfigEvent, Library, Service, config_path, station_added, station_deleted, station_updated,
  valid_id,
}
use aviationwx_bridge.Config.Service.Stations.{
  add_station, change_station, delete_station, delete_station_at, forget_station, keep_station,
  save_station, save_station_file, update_found_station, update_station, valid_station,
  with_station_id,
}
use aviationwx_bridge.Config.Service.View.{
  Change, Follows, Trace, View, map_of, map_of-delete, map_of-store, set, station_is_added,
  station_is_deleted, station_is_updated, then_change, view, with_stations,
}
use aviationwx_bridge.Config.Service.Refinement.Cameras.{free, held}

module _ {J : Type 0} (lib : Library J) where
  keep_station-Follows :
      (u : View) (st : Station) (e : ConfigEvent) (r : Files J × Bool) (s : Service J)
      → Follows lib u s
      → Change (view lib s) e (with_stations (set st.id (some st) (map_of s.stations)) (view lib s))
      → Follows lib u (keep_station lib st e r s).0
  keep_station-Follows u st e (fs, true) s t c =
      subst (λ m. Trace u (s.events ++ (e ∷ [])) (with_stations m (view lib s)))
        (sym (map_of-store st.id st s.stations)) (then_change t c)
  keep_station-Follows u st e (fs, false) s t c = t

  save_station-Follows :
      (u : View) (env : SaveEnv J) (e : ConfigEvent) (st : Station) (s : Service J)
      → Follows lib u s
      → Change (view lib s) e (with_stations (set st.id (some st) (map_of s.stations)) (view lib s))
      → Follows lib u (save_station lib env e st s).0
  save_station-Follows u env e st s t c =
      keep_station-Follows u st e (save_station_file lib env st s.station_files) s t c

  -- the change that an update of a station makes
  updated :
      (id : Name) (st old : Station) (s : Service J)
      → st.id ≡ id
      → find id s.stations ≡ some old
      → Change
          (view lib s)
          (station_updated id)
          (with_stations (set st.id (some st) (map_of s.stations)) (view lib s))
  updated id st old s own f =
      subst
        (λ i.
          Change (view lib s) (station_updated i)
            (with_stations (set st.id (some st) (map_of s.stations)) (view lib s)))
        own (station_is_updated (view lib s) st old (ap (λ i. find i s.stations) own ∙ f))

  change_station-Follows :
      (u : View) (env : SaveEnv J) (id : Name) (old : Station) (o : Option Station) (s : Service J)
      → find id s.stations ≡ some old
      → Follows lib u s
      → Follows lib u (change_station lib env id o s).0
  change_station-Follows u env id old none s f t = t
  change_station-Follows u env id old (some c) s f t =
      let given = record c { id = id } in
      let st = normalize_station_defaults given in
      elim (Bool-cases (valid_station lib st)) [
        | inr v ↦ rw v t
        | inl v ↦ rw v (
            save_station-Follows u env (station_updated id) st s t
              (updated id st old s (normalize_station_defaults-id given) f))
      ]

  update_found_station-Follows :
      (u : View) (env : SaveEnv J) (id : Name) (fn : Station → Option Station) (o : Option Station)
      (s : Service J)
      → find id s.stations ≡ o
      → Follows lib u s
      → Follows lib u (update_found_station lib env id fn o s).0
  update_found_station-Follows u env id fn none s f t = t
  update_found_station-Follows u env id fn (some c) s f t =
      change_station-Follows u env id c (fn c) s f t

  forget_station-Follows :
      (u : View) (id : Name) (old : Station) (r : Files J × Bool) (s : Service J)
      → find id s.stations ≡ some old
      → Follows lib u s
      → Follows lib u (forget_station lib id r s).0
  forget_station-Follows u id old (fs, true) s f t =
      subst (λ m. Trace u (s.events ++ (station_deleted id ∷ [])) (with_stations m (view lib s)))
        (sym (map_of-delete id s.stations))
        (then_change t (station_is_deleted (view lib s) id old f))
  forget_station-Follows u id old (fs, false) s f t = t

  delete_station_at-Follows :
      (u : View) (can_remove : Bool) (id : Name) (old : Station) (path : Option Name)
      (s : Service J)
      → find id s.stations ≡ some old
      → Follows lib u s
      → Follows lib u (delete_station_at lib can_remove id path s).0
  delete_station_at-Follows u can_remove id old none s f t = t
  delete_station_at-Follows u can_remove id old (some path) s f t =
      forget_station-Follows u id old (remove_file can_remove path s.station_files) s f t

  pub add_station-Follows :
      (u : View) (env : SaveEnv J) (given : Station) (s : Service J)
      → Follows lib u s
      → Follows lib u (add_station lib env given s).0
  unfolding add_station
  add_station-Follows u env given s t =
      let st = normalize_station_defaults (with_station_id lib given s) in
      elim (Bool-cases (name_eq (trim_space given.name) [])) [
        | inl e ↦ rw e t
        | inr e ↦ elim (Bool-cases (valid_station lib st)) [
          | inr v ↦ rw (e, v) t
          | inl v ↦ elim (Bool-cases (is_some (find st.id s.stations))) [
            | inl h ↦ rw (e, v, h) t
            | inr h ↦
                rw (e, v, h)
                  (save_station-Follows u env (station_added st.id) st s t
                    (station_is_added (view lib s) st (free (find st.id s.stations) h)))
          ]
        ]
      ]

  pub update_station-Follows :
      (u : View) (env : SaveEnv J) (id : Name) (fn : Station → Option Station) (s : Service J)
      → Follows lib u s
      → Follows lib u (update_station lib env id fn s).0
  unfolding update_station
  update_station-Follows u env id fn s t = elim (Bool-cases (valid_id lib id)) [
    | inl v ↦ rw v (update_found_station-Follows u env id fn (find id s.stations) s refl t)
    | inr v ↦ rw v t
  ]

  pub delete_station-Follows :
      (u : View) (can_remove : Bool) (id : Name) (s : Service J)
      → Follows lib u s
      → Follows lib u (delete_station lib can_remove id s).0
  unfolding delete_station
  delete_station-Follows u can_remove id s t = elim (Bool-cases (valid_id lib id)) [
    | inr v ↦ rw v t
    | inl v ↦ elim (Bool-cases (is_some (find id s.stations))) [
      | inr h ↦ rw (v, h) t
      | inl h ↦
          let old = held (find id s.stations) h in
          rw (v, h) (delete_station_at-Follows u can_remove id old.0 (config_path lib id) s old.1 t)
    ]
  ]
