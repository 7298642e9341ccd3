-- ===== src/Config/Service/Reset.antt =====
-- A file of a camera that does not parse, and the settings at the next start.
use aviationwx_bridge.Prelude.{
  Bool, Bool-cases, Option, Option-cases, [], after, before, false, if◌then◌else◌, inl, inr, none,
  refl, some, true, ◌++◌, ◌∷◌, ◌≡◌,
}
use aviationwx_bridge.Queue.Names.{Name}
use aviationwx_bridge.Queue.Names.Table.{Table, store}
use aviationwx_bridge.Config.Values.{Camera, GlobalSettings, default_global, default_password}
use aviationwx_bridge.Config.Settings.{get_web_password}
use aviationwx_bridge.Config.Files.{File, Files, SaveEnv, is_config_file, written}
use aviationwx_bridge.Config.Service.{Library, Service, save_global}
use aviationwx_bridge.Config.Service.Loading.{
  LoadEnv, after_reload, decoded_global, listed, load_dir, load_loop, new_service, read_file,
  reload, restarted, then_cameras, then_stations, use_camera_text,
}

module _ {J A : Type 0} (readable : Name → Bool) (use_text : J → Option A) (id_of : A → Name)
    (broken : File J) (config : is_config_file broken ≡ true)
    (unread : use_text broken.content ≡ none) where
  unread_file : (b : Bool) → read_file b use_text broken ≡ none
  unread_file true = unread
  unread_file false = refl

  load_loop_stops :
      (before after : Files J) (acc : Table A)
      → (load_loop readable use_text id_of (before ++ (broken ∷ after)) acc).1 ≡ false
  unfolding load_loop
  load_loop_stops [] after acc = rw (config, unread_file (readable broken.name)) refl
  load_loop_stops (f ∷ before) after acc = elim (Bool-cases (is_config_file f)) [
    | inr e ↦ rw e (load_loop_stops before after acc)
    | inl e ↦ elim (Option-cases (read_file (readable f.name) use_text f)) [
      | inl r ↦ rw (e, r) refl
      | inr (a, r) ↦ rw (e, r) (load_loop_stops before after (store (id_of a) a acc))
    ]
  ]

module _ {J : Type 0} (lib : Library J) where
  then_stations-fails :
      (env : LoadEnv) (r : Table Camera × Bool) (s : Service J)
      → r.1 ≡ false
      → (then_stations lib env r s).1 ≡ false
  then_stations-fails env (cams, true) s h = absurd (cc h)
  then_stations-fails env (cams, false) s h = refl

  then_cameras-fails :
      (env : LoadEnv) (o : Option GlobalSettings) (s : Service J)
      → (load_dir env.camera_dir (use_camera_text lib) (λ c. c.id) s.camera_files s.cameras).1
        ≡ false
      → (then_cameras lib env o s).1 ≡ false
  then_cameras-fails env none s h = refl
  then_cameras-fails env (some g) s h =
      then_stations-fails env
        (load_dir env.camera_dir (use_camera_text lib) (λ c. c.id) s.camera_files s.cameras)
        (record s { global = g }) h

  -- the settings are the defaults, in memory and on disk
  abbrev pub IsReset : J → Service J × Bool → Type 0
  IsReset text r =
      (r.1 ≡ true)
      × (r.0.global ≡ default_global)
      × (r.0.global_file ≡ some text)
      × (get_web_password r.0.global ≡ default_password)

  after_reload_resets :
      (save : SaveEnv J) (text : J) (r : Service J × Bool)
      → r.1 ≡ false
      → save.write ≡ written
      → lib.encode_global default_global ≡ some text
      → IsReset text (after_reload lib save r)
  unfolding save_global get_web_password
  after_reload_resets save text (s, true) h w e = absurd (cc h)
  after_reload_resets save text (s, false) h w e = rw (w, e) (refl, refl, refl, refl)

  -- A file of a camera that does not parse makes the next start, if it can save them, replace the
  -- settings in memory and in global.json by the defaults, whatever they were and whether they could be
  -- read, so that the web console has its default password.
  pub new_service_resets :
      (load : LoadEnv) (save : SaveEnv J) (disk : Service J) (text : J) (readable : Name → Bool)
      (broken : File J) (before after : Files J)
      → load.camera_dir ≡ listed readable
      → disk.camera_files ≡ before ++ (broken ∷ after)
      → is_config_file broken ≡ true
      → lib.decode_camera broken.content ≡ none
      → save.write ≡ written
      → lib.encode_global default_global ≡ some text
      → IsReset text (new_service lib load save disk)
  unfolding new_service reload load_dir use_camera_text
  new_service_resets load save disk text readable broken before after l f c d w e =
      let unread : use_camera_text lib broken.content ≡ none = rw d refl in
      let stops =
        load_loop_stops readable (use_camera_text lib) (λ c. c.id) broken c unread before after
          [] in
      after_reload_resets save text (reload lib load (restarted lib disk))
        (then_cameras-fails load
          (if load.global_readable then decoded_global lib disk.global_file else none)
          (restarted lib disk) (rw (l, f) stops))
        w e
