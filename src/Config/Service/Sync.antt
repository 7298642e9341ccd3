-- ===== src/Config/Service/Sync.antt =====
-- The configuration in memory is the one in the files, after any operations whose writes are whole.
mod Cameras
mod Stations
use aviationwx_bridge.Prelude.{
  All, Bool-cases, List, Option, [], inl, inr, none, refl, some, subst, sym, ◌∷◌, ◌≡◌,
}
use aviationwx_bridge.Config.Values.{GlobalSettings}
use aviationwx_bridge.Config.Files.{WriteAnswer, cut_short, not_opened, written}
use aviationwx_bridge.Config.Files.Agreement.{IsWhole}
use aviationwx_bridge.Config.Api.{validate_api_settings}
use aviationwx_bridge.Config.Service.{
  Library, Service, change_global, keep_global, update_global, write_global,
}
use aviationwx_bridge.Config.Service.Operations.{
  IsInSync, IsWholeOp, Op, WritesOwn, add_camera_op, add_station_op, apply, delete_camera_op,
  delete_station_op, run, update_camera_op, update_global_op, update_station_op,
}
use aviationwx_bridge.Config.Service.Sync.Cameras.{
  add_camera-IsInSync, delete_camera-IsInSync, update_camera-IsInSync,
}
use aviationwx_bridge.Config.Service.Sync.Stations.{
  add_station-IsInSync, delete_station-IsInSync, update_station-IsInSync,
}

module _ {J : Type 0} (lib : Library J) where
  write_global-IsInSync :
      (answer : WriteAnswer J) (g : GlobalSettings) (text : Option J) (s : Service J)
      → IsWhole answer
      → lib.encode_global g ≡ text
      → IsInSync lib s
      → IsInSync lib (keep_global lib g (write_global lib answer text s.global_file) s).0
  write_global-IsInSync answer g none s w e h = h
  write_global-IsInSync written g (some c) s w e h = (h.0, h.1, (c, refl, e))
  write_global-IsInSync not_opened g (some c) s w e h = h
  write_global-IsInSync (cut_short part) g (some c) s w e h = absurd w

  change_global-IsInSync :
      (answer : WriteAnswer J) (o : Option GlobalSettings) (s : Service J)
      → IsWhole answer
      → IsInSync lib s
      → IsInSync lib (change_global lib answer o s).0
  change_global-IsInSync answer none s w h = h
  change_global-IsInSync answer (some g) s w h =
      elim (Bool-cases (validate_api_settings lib.parse_url g.api)) [
        | inl v ↦ rw v (write_global-IsInSync answer g (lib.encode_global g) s w refl h)
        | inr v ↦ rw v h
      ]

  apply-IsInSync :
      (op : Op J) (s : Service J)
      → IsWholeOp op
      → WritesOwn op
      → IsInSync lib s
      → IsInSync lib (apply lib op s)
  unfolding apply update_global
  apply-IsInSync (add_camera_op env cam) s w o h = add_camera-IsInSync lib env cam s w h
  apply-IsInSync (update_camera_op env id fn) s w o h = update_camera-IsInSync lib env id fn s w h
  apply-IsInSync (delete_camera_op can_remove id) s w o h =
      delete_camera-IsInSync lib can_remove id s h
  apply-IsInSync (add_station_op env st) s w o h = add_station-IsInSync lib env st s w h
  apply-IsInSync (update_station_op env id fn) s w o h = update_station-IsInSync lib env id fn s w h
  apply-IsInSync (delete_station_op can_remove id) s w o h =
      delete_station-IsInSync lib can_remove id s h
  apply-IsInSync (update_global_op answer fn) s w o h =
      change_global-IsInSync answer (fn s.global).1 (record s { global = (fn s.global).0 }) w
        (subst (λ g. IsInSync lib (record s { global = g })) (sym (o s.global)) h)

  -- Where memory and files agree, they agree after any operations of clients in any order, failed ones
  -- included, if no write is cut short and no change of the settings
  -- writes through a pointer that it shares with the service.
  pub run-IsInSync :
      (ops : List (Op J)) (s : Service J)
      → All IsWholeOp ops
      → All WritesOwn ops
      → IsInSync lib s
      → IsInSync lib (run lib ops s)
  unfolding run
  run-IsInSync [] s w o h = h
  run-IsInSync (op ∷ ops) s w o h =
      run-IsInSync ops (apply lib op s) w.1 o.1 (apply-IsInSync op s w.0 o.0 h)
