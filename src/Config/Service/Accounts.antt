-- ===== src/Config/Service/Accounts.antt =====
-- No two cameras share an SFTP account, whatever the clients do.
pub mod Duplicates
use aviationwx_bridge.Prelude.{
  Bool, Bool-cases, List, Option, [], false, inl, inr, none, some, subst, sym, true, ◌∙◌, ◌∷◌, ◌≡◌,
}
use aviationwx_bridge.Queue.Names.{Name, is_some, name_eq}
use aviationwx_bridge.Queue.Names.Table.{find, store}
use aviationwx_bridge.Queue.Disk.Laws.{name_eq_sym}
use aviationwx_bridge.Config.Values.{Camera}
use aviationwx_bridge.Config.Upload.{check_duplicate_upload, trim_space}
use aviationwx_bridge.Config.Files.{Files, SaveEnv, remove_file}
use aviationwx_bridge.Config.Service.{
  ConfigEvent, Library, Service, add_camera, camera_added, camera_updated, change_camera,
  config_path, delete_at, delete_camera, forget_camera, keep_camera, save_camera, save_camera_file,
  update_camera, update_found, valid_id, with_camera_id,
}
use aviationwx_bridge.Config.Service.Operations.{
  Op, add_camera_op, add_station_op, apply, delete_camera_op, delete_station_op, run,
  update_camera_op, update_global_op, update_station_op,
}
use aviationwx_bridge.Config.Service.Accounts.Duplicates.{
  HasOwnAccounts, delete-HasOwnAccounts, not_empty, store-HasOwnAccounts,
}
use aviationwx_bridge.Config.Service.Frames.{
  add_station-cameras, delete_station-cameras, update_global-cameras, update_station-cameras,
}

module _ {J : Type 0} (lib : Library J) where
  keep_camera-HasOwnAccounts :
      (exclude : Name) (event : ConfigEvent) (cam : Camera) (r : Files J × Bool) (s : Service J)
      → HasOwnAccounts lib s.cameras
      → HasOwnAccounts lib (store cam.id cam s.cameras)
      → HasOwnAccounts lib (keep_camera lib cam event r s).0.cameras
  keep_camera-HasOwnAccounts exclude event cam (fs, true) s h k = k
  keep_camera-HasOwnAccounts exclude event cam (fs, false) s h k = h

  save_camera-HasOwnAccounts :
      (env : SaveEnv J) (exclude : Name) (event : ConfigEvent) (cam : Camera) (s : Service J)
      → valid_id lib cam.id ≡ true
      → ((other : Name) (d : Camera)
          → find other s.cameras ≡ some d
          → name_eq cam.id other ≡ false
          → name_eq other exclude ≡ false)
      → HasOwnAccounts lib s.cameras
      → HasOwnAccounts lib (save_camera lib env exclude event cam s).0.cameras
  unfolding save_camera
  save_camera-HasOwnAccounts env exclude event cam s v n k =
      elim (Bool-cases (check_duplicate_upload lib.lower exclude cam.upload s.cameras)) [
        | inl h ↦ rw h k
        | inr h ↦ rw h (
            keep_camera-HasOwnAccounts exclude event cam
              (save_camera_file lib env cam s.camera_files) s k
              (store-HasOwnAccounts lib exclude cam s.cameras v n h k))
      ]

  add_camera-HasOwnAccounts :
      (env : SaveEnv J) (given : Camera) (s : Service J)
      → HasOwnAccounts lib s.cameras
      → HasOwnAccounts lib (add_camera lib env given s).0.cameras
  unfolding add_camera
  add_camera-HasOwnAccounts env given s k =
      let cam = with_camera_id lib given s in
      elim (Bool-cases (name_eq (trim_space given.name) [])) [
        | inl e ↦ rw e k
        | inr e ↦ elim (Bool-cases (valid_id lib cam.id)) [
          | inr v ↦ rw (e, v) k
          | inl v ↦ elim (Bool-cases (is_some (find cam.id s.cameras))) [
            | inl t ↦ rw (e, v, t) k
            | inr t ↦
                rw (e, v, t)
                  (save_camera-HasOwnAccounts env [] (camera_added cam.id) cam s v
                    (λ other d f apart. not_empty s.cameras other d k.0 f) k)
          ]
        ]
      ]

  change_camera-HasOwnAccounts :
      (env : SaveEnv J) (id : Name) (o : Option Camera) (s : Service J)
      → valid_id lib id ≡ true
      → HasOwnAccounts lib s.cameras
      → HasOwnAccounts lib (change_camera lib env id o s).0.cameras
  change_camera-HasOwnAccounts env id none s v k = k
  change_camera-HasOwnAccounts env id (some c) s v k =
      save_camera-HasOwnAccounts env id (camera_updated id) (record c { id = id }) s v
        (λ other d f apart. name_eq_sym other id ∙ apart) k

  update_found-HasOwnAccounts :
      (env : SaveEnv J) (id : Name) (fn : Camera → Option Camera) (o : Option Camera)
      (s : Service J)
      → valid_id lib id ≡ true
      → HasOwnAccounts lib s.cameras
      → HasOwnAccounts lib (update_found lib env id fn o s).0.cameras
  update_found-HasOwnAccounts env id fn none s v k = k
  update_found-HasOwnAccounts env id fn (some c) s v k =
      change_camera-HasOwnAccounts env id (fn c) s v k

  update_camera-HasOwnAccounts :
      (env : SaveEnv J) (id : Name) (fn : Camera → Option Camera) (s : Service J)
      → HasOwnAccounts lib s.cameras
      → HasOwnAccounts lib (update_camera lib env id fn s).0.cameras
  unfolding update_camera
  update_camera-HasOwnAccounts env id fn s k = elim (Bool-cases (valid_id lib id)) [
    | inl v ↦ rw v (update_found-HasOwnAccounts env id fn (find id s.cameras) s v k)
    | inr v ↦ rw v k
  ]

  forget_camera-HasOwnAccounts :
      (id : Name) (r : Files J × Bool) (s : Service J)
      → HasOwnAccounts lib s.cameras
      → HasOwnAccounts lib (forget_camera lib id r s).0.cameras
  forget_camera-HasOwnAccounts id (fs, true) s k = delete-HasOwnAccounts lib id s.cameras k
  forget_camera-HasOwnAccounts id (fs, false) s k = k

  delete_at-HasOwnAccounts :
      (can_remove : Bool) (id : Name) (path : Option Name) (s : Service J)
      → HasOwnAccounts lib s.cameras
      → HasOwnAccounts lib (delete_at lib can_remove id path s).0.cameras
  delete_at-HasOwnAccounts can_remove id none s k = k
  delete_at-HasOwnAccounts can_remove id (some path) s k =
      forget_camera-HasOwnAccounts id (remove_file can_remove path s.camera_files) s k

  delete_camera-HasOwnAccounts :
      (can_remove : Bool) (id : Name) (s : Service J)
      → HasOwnAccounts lib s.cameras
      → HasOwnAccounts lib (delete_camera lib can_remove id s).0.cameras
  unfolding delete_camera
  delete_camera-HasOwnAccounts can_remove id s k = elim (Bool-cases (valid_id lib id)) [
    | inr v ↦ rw v k
    | inl v ↦ elim (Bool-cases (is_some (find id s.cameras))) [
      | inr t ↦ rw (v, t) k
      | inl t ↦ rw (v, t) (delete_at-HasOwnAccounts can_remove id (config_path lib id) s k)
    ]
  ]

  apply-HasOwnAccounts :
      (op : Op J) (s : Service J)
      → HasOwnAccounts lib s.cameras
      → HasOwnAccounts lib (apply lib op s).cameras
  unfolding apply
  apply-HasOwnAccounts (add_camera_op env cam) s k = add_camera-HasOwnAccounts env cam s k
  apply-HasOwnAccounts (update_camera_op env id fn) s k = update_camera-HasOwnAccounts env id fn s k
  apply-HasOwnAccounts (delete_camera_op can_remove id) s k =
      delete_camera-HasOwnAccounts can_remove id s k
  apply-HasOwnAccounts (add_station_op env st) s k =
      subst (HasOwnAccounts lib) (sym (add_station-cameras lib env st s)) k
  apply-HasOwnAccounts (update_station_op env id fn) s k =
      subst (HasOwnAccounts lib) (sym (update_station-cameras lib env id fn s)) k
  apply-HasOwnAccounts (delete_station_op can_remove id) s k =
      subst (HasOwnAccounts lib) (sym (delete_station-cameras lib can_remove id s)) k
  apply-HasOwnAccounts (update_global_op answer fn) s k =
      subst (HasOwnAccounts lib) (sym (update_global-cameras lib answer fn s)) k

  -- If no two cameras share a complete SFTP account at first, none do after any operations of clients,
  -- whatever the disk answers; the empty id is that of no camera.
  pub run-HasOwnAccounts :
      (ops : List (Op J)) (s : Service J)
      → HasOwnAccounts lib s.cameras
      → HasOwnAccounts lib (run lib ops s).cameras
  unfolding run
  run-HasOwnAccounts [] s k = k
  run-HasOwnAccounts (op ∷ ops) s k =
      run-HasOwnAccounts ops (apply lib op s) (apply-HasOwnAccounts op s k)
