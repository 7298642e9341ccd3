-- ===== src/Config/Service/Refinement/Cameras.antt =====
-- The operations on cameras make the changes that their events announce.
use aviationwx_bridge.Prelude.{
  Bool, Bool-cases, Option, [], false, inl, inr, none, refl, some, subst, sym, true, ◌++◌, ◌∷◌, ◌≡◌,
}
use aviationwx_bridge.Queue.Names.{Name, is_some, name_eq}
use aviationwx_bridge.Queue.Names.Table.{find, store}
use aviationwx_bridge.Config.Values.{Camera}
use aviationwx_bridge.Config.Upload.{check_duplicate_upload, trim_space}
use aviationwx_bridge.Config.Files.{Files, SaveEnv, remove_file}
use aviationwx_bridge.Config.Service.{
  ConfigEvent, Library, Service, add_camera, camera_added, camera_deleted, camera_updated,
  change_camera, config_path, delete_at, delete_camera, forget_camera, keep_camera, save_camera,
  save_camera_file, update_camera, update_found, valid_id, with_camera_id,
}
use aviationwx_bridge.Config.Service.View.{
  Change, Follows, Trace, View, camera_is_added, camera_is_deleted, camera_is_updated, map_of,
  map_of-delete, map_of-store, set, then_change, view, with_cameras,
}

-- a lookup that finds something, or nothing
pub held : {A : Type 0} (o : Option A) → is_some o ≡ true → (a : A) × (o ≡ some a)
held none h = absurd (cc h)
held (some a) h = (a, refl)

pub free : {A : Type 0} (o : Option A) → is_some o ≡ false → o ≡ none
free none h = refl
free (some a) h = absurd (cc h)

module _ {J : Type 0} (lib : Library J) where
  store_camera :
      (u : View) (s : Service J) (cam : Camera) (e : ConfigEvent)
      → Follows lib u s
      → Change (view lib s) e (with_cameras (set cam.id (some cam) (map_of s.cameras)) (view lib s))
      → Trace u
          (s.events ++ (e ∷ []))
          (with_cameras (map_of (store cam.id cam s.cameras)) (view lib s))
  store_camera u s cam e t c =
      subst (λ m. Trace u (s.events ++ (e ∷ [])) (with_cameras m (view lib s)))
        (sym (map_of-store cam.id cam s.cameras)) (then_change t c)

  keep_camera-Follows :
      (u : View) (cam : Camera) (e : ConfigEvent) (r : Files J × Bool) (s : Service J)
      → Follows lib u s
      → Change (view lib s) e (with_cameras (set cam.id (some cam) (map_of s.cameras)) (view lib s))
      → Follows lib u (keep_camera lib cam e r s).0
  keep_camera-Follows u cam e (fs, true) s t c = store_camera u s cam e t c
  keep_camera-Follows u cam e (fs, false) s t c = t

  save_camera-Follows :
      (u : View) (env : SaveEnv J) (exclude : Name) (e : ConfigEvent) (cam : Camera) (s : Service J)
      → Follows lib u s
      → Change (view lib s) e (with_cameras (set cam.id (some cam) (map_of s.cameras)) (view lib s))
      → Follows lib u (save_camera lib env exclude e cam s).0
  unfolding save_camera
  save_camera-Follows u env exclude e cam s t c =
      elim (Bool-cases (check_duplicate_upload lib.lower exclude cam.upload s.cameras)) [
        | inl d ↦ rw d t
        | inr d ↦
            rw d (keep_camera-Follows u cam e (save_camera_file lib env cam s.camera_files) s t c)
      ]

  change_camera-Follows :
      (u : View) (env : SaveEnv J) (id : Name) (old : Camera) (o : Option Camera) (s : Service J)
      → find id s.cameras ≡ some old
      → Follows lib u s
      → Follows lib u (change_camera lib env id o s).0
  change_camera-Follows u env id old none s f t = t
  change_camera-Follows u env id old (some c) s f t =
      let cam = record c { id = id } in
      save_camera-Follows u env id (camera_updated id) cam s t
        (camera_is_updated (view lib s) cam old f)

  update_found-Follows :
      (u : View) (env : SaveEnv J) (id : Name) (fn : Camera → Option Camera) (o : Option Camera)
      (s : Service J)
      → find id s.cameras ≡ o
      → Follows lib u s
      → Follows lib u (update_found lib env id fn o s).0
  update_found-Follows u env id fn none s f t = t
  update_found-Follows u env id fn (some c) s f t = change_camera-Follows u env id c (fn c) s f t

  forget_camera-Follows :
      (u : View) (id : Name) (old : Camera) (r : Files J × Bool) (s : Service J)
      → find id s.cameras ≡ some old
      → Follows lib u s
      → Follows lib u (forget_camera lib id r s).0
  forget_camera-Follows u id old (fs, true) s f t =
      subst (λ m. Trace u (s.events ++ (camera_deleted id ∷ [])) (with_cameras m (view lib s)))
        (sym (map_of-delete id s.cameras)) (then_change t (camera_is_deleted (view lib s) id old f))
  forget_camera-Follows u id old (fs, false) s f t = t

  delete_at-Follows :
      (u : View) (can_remove : Bool) (id : Name) (old : Camera) (path : Option Name) (s : Service J)
      → find id s.cameras ≡ some old
      → Follows lib u s
      → Follows lib u (delete_at lib can_remove id path s).0
  delete_at-Follows u can_remove id old none s f t = t
  delete_at-Follows u can_remove id old (some path) s f t =
      forget_camera-Follows u id old (remove_file can_remove path s.camera_files) s f t

  pub add_camera-Follows :
      (u : View) (env : SaveEnv J) (given : Camera) (s : Service J)
      → Follows lib u s
      → Follows lib u (add_camera lib env given s).0
  unfolding add_camera
  add_camera-Follows u env given s t =
      let cam = with_camera_id lib given s in
      elim (Bool-cases (name_eq (trim_space given.name) [])) [
        | inl e ↦ rw e t
        | inr e ↦ elim (Bool-cases (valid_id lib cam.id)) [
          | inr v ↦ rw (e, v) t
          | inl v ↦ elim (Bool-cases (is_some (find cam.id s.cameras))) [
            | inl h ↦ rw (e, v, h) t
            | inr h ↦
                rw (e, v, h)
                  (save_camera-Follows u env [] (camera_added cam.id) cam s t
                    (camera_is_added (view lib s) cam (free (find cam.id s.cameras) h)))
          ]
        ]
      ]

  pub update_camera-Follows :
      (u : View) (env : SaveEnv J) (id : Name) (fn : Camera → Option Camera) (s : Service J)
      → Follows lib u s
      → Follows lib u (update_camera lib env id fn s).0
  unfolding update_camera
  update_camera-Follows u env id fn s t = elim (Bool-cases (valid_id lib id)) [
    | inl v ↦ rw v (update_found-Follows u env id fn (find id s.cameras) s refl t)
    | inr v ↦ rw v t
  ]

  pub delete_camera-Follows :
      (u : View) (can_remove : Bool) (id : Name) (s : Service J)
      → Follows lib u s
      → Follows lib u (delete_camera lib can_remove id s).0
  unfolding delete_camera
  delete_camera-Follows u can_remove id s t = elim (Bool-cases (valid_id lib id)) [
    | inr v ↦ rw v t
    | inl v ↦ elim (Bool-cases (is_some (find id s.cameras))) [
      | inr h ↦ rw (v, h) t
      | inl h ↦
          let old = held (find id s.cameras) h in
          rw (v, h) (delete_at-Follows u can_remove id old.0 (config_path lib id) s old.1 t)
    ]
  ]
