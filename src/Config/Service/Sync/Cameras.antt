-- ===== src/Config/Service/Sync/Cameras.antt =====
-- The operations on cameras keep memory and files in agreement.
use aviationwx_bridge.Prelude.{
  Bool, Bool-cases, Option, [], false, inl, inr, none, refl, some, true, ◌&&◌, ◌≡◌,
}
use aviationwx_bridge.Queue.Names.{Name, is_some, name_eq}
use aviationwx_bridge.Queue.Names.Table.{find}
use aviationwx_bridge.Config.Values.{Camera}
use aviationwx_bridge.Config.Upload.{check_duplicate_upload, trim_space}
use aviationwx_bridge.Config.Files.{Files, SaveEnv, remove_file}
use aviationwx_bridge.Config.Files.Laws.{contained_config_path-cases}
use aviationwx_bridge.Config.Files.Agreement.{
  AfterDelete, AfterSave, IsWhole, path_of, remove_file-AfterDelete, save_at-AfterSave,
}
use aviationwx_bridge.Config.Service.{
  ConfigEvent, Library, Service, add_camera, camera_added, camera_updated, change_camera,
  config_path, delete_at, delete_camera, forget_camera, keep_camera, save_camera, save_camera_file,
  update_camera, update_found, valid_id, with_camera_id,
}
use aviationwx_bridge.Config.Service.Operations.{IsGoodCamera, IsInSync}

module _ {J : Type 0} (lib : Library J) where
  keep_camera-IsInSync :
      (cam : Camera) (event : ConfigEvent) (r : Files J × Bool) (s : Service J)
      → IsInSync lib s
      → AfterSave lib.encode_camera (λ c. c.id) (IsGoodCamera lib) cam.id cam s.cameras r
      → IsInSync lib (keep_camera lib cam event r s).0
  keep_camera-IsInSync cam event (fs, true) s h k = (k, h.1, h.2)
  keep_camera-IsInSync cam event (fs, false) s h k = (k, h.1, h.2)

  good :
      (id : Name)
      → valid_id lib id ≡ true
      → config_path lib id ≡ some (path_of id)
      → (valid_id lib id && is_some (config_path lib id)) ≡ true
  good id v p = rw (v, p) refl

  save_camera-IsInSync :
      (env : SaveEnv J) (exclude : Name) (event : ConfigEvent) (cam : Camera) (s : Service J)
      → IsWhole env.write
      → valid_id lib cam.id ≡ true
      → IsInSync lib s
      → IsInSync lib (save_camera lib env exclude event cam s).0
  unfolding save_camera save_camera_file
  save_camera-IsInSync env exclude event cam s w v h =
      elim (Bool-cases (check_duplicate_upload lib.lower exclude cam.upload s.cameras)) [
        | inl d ↦ rw d h
        | inr d ↦ rw d (
            keep_camera-IsInSync cam event (save_camera_file lib env cam s.camera_files) s h (
              save_at-AfterSave lib.encode_camera (λ c. c.id) (IsGoodCamera lib) env lib.paths
                cam.id cam s.cameras s.camera_files w refl (good cam.id v) h.0))
      ]

  change_camera-IsInSync :
      (env : SaveEnv J) (id : Name) (o : Option Camera) (s : Service J)
      → IsWhole env.write
      → valid_id lib id ≡ true
      → IsInSync lib s
      → IsInSync lib (change_camera lib env id o s).0
  change_camera-IsInSync env id none s w v h = h
  change_camera-IsInSync env id (some c) s w v h =
      save_camera-IsInSync env id (camera_updated id) (record c { id = id }) s w v h

  update_found-IsInSync :
      (env : SaveEnv J) (id : Name) (fn : Camera → Option Camera) (o : Option Camera)
      (s : Service J)
      → IsWhole env.write
      → valid_id lib id ≡ true
      → IsInSync lib s
      → IsInSync lib (update_found lib env id fn o s).0
  update_found-IsInSync env id fn none s w v h = h
  update_found-IsInSync env id fn (some c) s w v h = change_camera-IsInSync env id (fn c) s w v h

  forget_camera-IsInSync :
      (id : Name) (r : Files J × Bool) (s : Service J)
      → IsInSync lib s
      → AfterDelete lib.encode_camera (λ c. c.id) (IsGoodCamera lib) id s.cameras r
      → IsInSync lib (forget_camera lib id r s).0
  forget_camera-IsInSync id (fs, true) s h k = (k, h.1, h.2)
  forget_camera-IsInSync id (fs, false) s h k = h

  delete_at-IsInSync :
      (can_remove : Bool) (id : Name) (s : Service J)
      → IsInSync lib s
      → IsInSync lib (delete_at lib can_remove id (config_path lib id) s).0
  delete_at-IsInSync can_remove id s h = elim (contained_config_path-cases lib.paths id) [
    | inl p ↦ rw p h
    | inr p ↦ rw p (
        forget_camera-IsInSync id (remove_file can_remove (path_of id) s.camera_files) s h (
          remove_file-AfterDelete lib.encode_camera (λ c. c.id) (IsGoodCamera lib) can_remove id
            s.cameras s.camera_files h.0))
  ]

  pub add_camera-IsInSync :
      (env : SaveEnv J) (given : Camera) (s : Service J)
      → IsWhole env.write
      → IsInSync lib s
      → IsInSync lib (add_camera lib env given s).0
  unfolding add_camera
  add_camera-IsInSync env given s w h =
      let cam = with_camera_id lib given s in
      elim (Bool-cases (name_eq (trim_space given.name) [])) [
        | inl e ↦ rw e h
        | inr e ↦ elim (Bool-cases (valid_id lib cam.id)) [
          | inr v ↦ rw (e, v) h
          | inl v ↦ elim (Bool-cases (is_some (find cam.id s.cameras))) [
            | inl t ↦ rw (e, v, t) h
            | inr t ↦ rw (e, v, t) (save_camera-IsInSync env [] (camera_added cam.id) cam s w v h)
          ]
        ]
      ]

  pub update_camera-IsInSync :
      (env : SaveEnv J) (id : Name) (fn : Camera → Option Camera) (s : Service J)
      → IsWhole env.write
      → IsInSync lib s
      → IsInSync lib (update_camera lib env id fn s).0
  unfolding update_camera
  update_camera-IsInSync env id fn s w h = elim (Bool-cases (valid_id lib id)) [
    | inl v ↦ rw v (update_found-IsInSync env id fn (find id s.cameras) s w v h)
    | inr v ↦ rw v h
  ]

  pub delete_camera-IsInSync :
      (can_remove : Bool) (id : Name) (s : Service J)
      → IsInSync lib s
      → IsInSync lib (delete_camera lib can_remove id s).0
  unfolding delete_camera
  delete_camera-IsInSync can_remove id s h = elim (Bool-cases (valid_id lib id)) [
    | inr v ↦ rw v h
    | inl v ↦ elim (Bool-cases (is_some (find id s.cameras))) [
      | inr t ↦ rw (v, t) h
      | inl t ↦ rw (v, t) (delete_at-IsInSync can_remove id s h)
    ]
  ]
