-- ===== src/Config/Service/Refinement.antt =====
-- The service refines the abstract map of cameras, stations and settings.
pub mod Cameras
pub mod Stations
use aviationwx_bridge.Prelude.{
  All, Bool, Bool-cases, List, Option, [], false, inl, inr, none, some, subst, sym, true, ◌∷◌, ◌≡◌,
}
use aviationwx_bridge.Config.Values.{GlobalSettings}
use aviationwx_bridge.Config.Files.{WriteAnswer}
use aviationwx_bridge.Config.Api.{validate_api_settings}
use aviationwx_bridge.Config.Service.{
  Library, Service, change_global, keep_global, update_global, write_global,
}
use aviationwx_bridge.Config.Service.Operations.{
  Op, WritesOwn, add_camera_op, add_station_op, apply, delete_camera_op, delete_station_op, run,
  update_camera_op, update_global_op, update_station_op,
}
use aviationwx_bridge.Config.Service.View.{
  Follows, Trace, View, settings_are_updated, start, then_change, view,
}
use aviationwx_bridge.Config.Service.Refinement.Cameras.{
  add_camera-Follows, delete_camera-Follows, update_camera-Follows,
}
use aviationwx_bridge.Config.Service.Refinement.Stations.{
  add_station-Follows, delete_station-Follows, update_station-Follows,
}

module _ {J : Type 0} (lib : Library J) where
  keep_global-Follows :
      (u : View) (g : GlobalSettings) (r : Option J × Bool) (s : Service J)
      → Follows lib u s
      → Follows lib u (keep_global lib g r s).0
  keep_global-Follows u g (file, true) s t = then_change t (settings_are_updated (view lib s) g)
  keep_global-Follows u g (file, false) s t = t

  change_global-Follows :
      (u : View) (answer : WriteAnswer J) (o : Option GlobalSettings) (s : Service J)
      → Follows lib u s
      → Follows lib u (change_global lib answer o s).0
  change_global-Follows u answer none s t = t
  change_global-Follows u answer (some g) s t =
      elim (Bool-cases (validate_api_settings lib.parse_url g.api)) [
        | inl v ↦ rw v (
            keep_global-Follows u g (write_global lib answer (lib.encode_global g) s.global_file) s
              t)
        | inr v ↦ rw v t
      ]

  apply-Follows :
      (u : View) (op : Op J) (s : Service J)
      → WritesOwn op
      → Follows lib u s
      → Follows lib u (apply lib op s)
  unfolding apply update_global
  apply-Follows u (add_camera_op env cam) s w t = add_camera-Follows lib u env cam s t
  apply-Follows u (update_camera_op env id fn) s w t = update_camera-Follows lib u env id fn s t
  apply-Follows u (delete_camera_op can_remove id) s w t =
      delete_camera-Follows lib u can_remove id s t
  apply-Follows u (add_station_op env st) s w t = add_station-Follows lib u env st s t
  apply-Follows u (update_station_op env id fn) s w t = update_station-Follows lib u env id fn s t
  apply-Follows u (delete_station_op can_remove id) s w t =
      delete_station-Follows lib u can_remove id s t
  apply-Follows u (update_global_op answer fn) s w t =
      change_global-Follows u answer (fn s.global).1 (record s { global = (fn s.global).0 })
        (subst (λ g. Follows lib u (record s { global = g })) (sym (w s.global)) t)

  run-Follows :
      (u : View) (ops : List (Op J)) (s : Service J)
      → All WritesOwn ops
      → Follows lib u s
      → Follows lib u (run lib ops s)
  unfolding run
  run-Follows u [] s w t = t
  run-Follows u (op ∷ ops) s w t =
      run-Follows u ops (apply lib op s) w.1 (apply-Follows u op s w.0 t)

  -- Of a service that has sent no events yet, clients can read after any operations, whatever the disk
  -- answers, exactly what the events that were sent since announce, one change for each event in its
  -- order: a value is added under a free id, replaced or deleted under one that is held, or the settings
  -- are replaced; a failed operation sends nothing and changes nothing that clients read. A change of
  -- the settings writes nothing through a pointer that the copy it gets shares with the service.
  pub run_refines :
      (ops : List (Op J)) (s : Service J)
      → All WritesOwn ops
      → s.events ≡ []
      → Trace (view lib s) (run lib ops s).events (view lib (run lib ops s))
  run_refines ops s w h =
      run-Follows (view lib s) ops s w
        (subst (λ es. Trace (view lib s) es (view lib s)) (sym h) start)
