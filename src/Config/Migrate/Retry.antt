-- ===== src/Config/Migrate/Retry.antt =====
-- What the next start does after a migration.
use aviationwx_bridge.Prelude.{
  Bool, Bool-cases, List, Option, [], ap, arith, false, if◌then◌else◌, inl, inr, none, refl, some,
  true, ℕ, ◌+◌, ◌∙◌, ◌∷◌, ◌≡◌,
}
use aviationwx_bridge.Queue.Names.{is_some}
use aviationwx_bridge.Queue.Names.Table.{Table}
use aviationwx_bridge.Config.Values.{
  Camera, GlobalSettings, LegacyConfig, Sntp, default_global, default_sntp,
}
use aviationwx_bridge.Config.Files.{Files, SaveEnv, WriteAnswer, cut_short, not_opened, written}
use aviationwx_bridge.Config.Api.{validate_api_settings}
use aviationwx_bridge.Config.Service.{
  ConfigEvent, Library, Service, add_camera, camera_added, change_global, keep_camera, keep_global,
  save_camera, save_camera_file, save_global, update_global, with_camera_id, write_global,
}
use aviationwx_bridge.Config.Service.Loading.{
  LoadEnv, after_reload, decoded_global, load_dir, load_stations, new_service, reload, restarted,
  then_cameras, then_stations, use_camera_text, with_sntp,
}
use aviationwx_bridge.Config.Migrate.{
  MigrateEnv, add_cameras, choose_start, init_or_migrate, legacy_settings, migrate_first,
  migrate_from_legacy, next_camera, then_add_cameras, then_settings,
}

module _ {J : Type 0} (lib : Library J) where
  abbrev pub HasFile : Service J → Type 0
  HasFile s = is_some s.global_file ≡ true

  write_global-HasFile :
      (answer : WriteAnswer J) (text old : Option J)
      → is_some old ≡ true
      → is_some (write_global lib answer text old).0 ≡ true
  write_global-HasFile answer none old h = h
  write_global-HasFile written (some c) old h = refl
  write_global-HasFile not_opened (some c) old h = h
  write_global-HasFile (cut_short part) (some c) old h = refl

  -- a write that succeeds leaves a file
  wrote :
      (answer : WriteAnswer J) (text old : Option J)
      → (write_global lib answer text old).1 ≡ true
      → is_some (write_global lib answer text old).0 ≡ true
  wrote answer none old h = absurd (cc h)
  wrote written (some c) old h = refl
  wrote not_opened (some c) old h = absurd (cc h)
  wrote (cut_short part) (some c) old h = absurd (cc h)

  then_stations-file :
      (env : LoadEnv) (r : Table Camera × Bool) (s : Service J)
      → (then_stations lib env r s).0.global_file ≡ s.global_file
  unfolding load_stations
  then_stations-file env (cams, true) s = refl
  then_stations-file env (cams, false) s = refl

  then_cameras-file :
      (env : LoadEnv) (o : Option GlobalSettings) (s : Service J)
      → (then_cameras lib env o s).0.global_file ≡ s.global_file
  then_cameras-file env none s = refl
  then_cameras-file env (some g) s =
      then_stations-file env
        (load_dir env.camera_dir (use_camera_text lib) (λ c. c.id) s.camera_files s.cameras)
        (record s { global = g })

  then_cameras-read :
      (env : LoadEnv) (readable : Bool) (file : Option J) (s : Service J)
      → (then_cameras lib env (if readable then decoded_global lib file else none) s).1 ≡ true
      → is_some file ≡ true
  then_cameras-read env true none s h = absurd (cc h)
  then_cameras-read env true (some c) s h = refl
  then_cameras-read env false file s h = absurd (cc h)

  reload-HasFile :
      (env : LoadEnv) (s : Service J) → (reload lib env s).1 ≡ true → HasFile (reload lib env s).0
  unfolding reload
  reload-HasFile env s h =
      ap is_some (
        then_cameras-file env
          (if env.global_readable then decoded_global lib s.global_file else none) s)
      ∙ then_cameras-read env env.global_readable s.global_file s h

  with_sntp-HasFile :
      (o : Option Sntp) (save : SaveEnv J) (s : Service J)
      → HasFile s
      → HasFile (with_sntp lib o save s).0
  unfolding save_global
  with_sntp-HasFile (some n) save s h = h
  with_sntp-HasFile none save s h =
      write_global-HasFile save.write
        (lib.encode_global (record s.global { sntp = some default_sntp })) s.global_file h

  after_reload-HasFile :
      (save : SaveEnv J) (r : Service J × Bool)
      → (r.1 ≡ true → HasFile r.0)
      → (after_reload lib save r).1 ≡ true
      → HasFile (after_reload lib save r).0
  unfolding save_global
  after_reload-HasFile save (s, true) f h = with_sntp-HasFile s.global.sntp save s (f refl)
  after_reload-HasFile save (s, false) f h =
      wrote save.write (lib.encode_global default_global) s.global_file h

  new_service-HasFile :
      (load : LoadEnv) (save : SaveEnv J) (disk : Service J)
      → (new_service lib load save disk).1 ≡ true
      → HasFile (new_service lib load save disk).0
  unfolding new_service
  new_service-HasFile load save disk h =
      after_reload-HasFile save (reload lib load (restarted lib disk))
        (reload-HasFile load (restarted lib disk)) h

  keep_camera-file :
      (cam : Camera) (event : ConfigEvent) (r : Files J × Bool) (s : Service J)
      → (keep_camera lib cam event r s).0.global_file ≡ s.global_file
  keep_camera-file cam event (fs, true) s = refl
  keep_camera-file cam event (fs, false) s = refl

  add_camera-file :
      (env : SaveEnv J) (given : Camera) (s : Service J)
      → (add_camera lib env given s).0.global_file ≡ s.global_file
  unfolding add_camera save_camera
  add_camera-file env given s =
      let cam = with_camera_id lib given s in
      let kept =
        keep_camera-file cam (camera_added cam.id) (save_camera_file lib env cam s.camera_files)
          s in
      ground arith

  next_camera-HasFile :
      (r : Service J × Option Camera) (rest : Service J → Service J × Bool)
      → HasFile r.0
      → ((s : Service J) → HasFile s → HasFile (rest s).0)
      → HasFile (next_camera lib r rest).0
  next_camera-HasFile (s, none) rest h f = h
  next_camera-HasFile (s, some cam) rest h f = f s h

  add_cameras-HasFile :
      (envs : ℕ → SaveEnv J) (i : ℕ) (cams : List Camera) (s : Service J)
      → HasFile s
      → HasFile (add_cameras lib envs i cams s).0
  unfolding add_cameras
  add_cameras-HasFile envs i [] s h = h
  add_cameras-HasFile envs i (cam ∷ cams) s h =
      next_camera-HasFile (add_camera lib (envs i) cam s) (add_cameras lib envs (i + 1) cams)
        (ap is_some (add_camera-file (envs i) cam s) ∙ h) (add_cameras-HasFile envs (i + 1) cams)

  keep_global-HasFile :
      (g : GlobalSettings) (r : Option J × Bool) (s : Service J)
      → is_some r.0 ≡ true
      → HasFile (keep_global lib g r s).0
  keep_global-HasFile g (file, true) s h = h
  keep_global-HasFile g (file, false) s h = h

  change_global-HasFile :
      (answer : WriteAnswer J) (o : Option GlobalSettings) (s : Service J)
      → HasFile s
      → HasFile (change_global lib answer o s).0
  change_global-HasFile answer none s h = h
  change_global-HasFile answer (some g) s h =
      elim (Bool-cases (validate_api_settings lib.parse_url g.api)) [
        | inr v ↦ rw v h
        | inl v ↦ rw v (
            keep_global-HasFile g (write_global lib answer (lib.encode_global g) s.global_file) s
              (write_global-HasFile answer (lib.encode_global g) s.global_file h))
      ]

  then_add_cameras-HasFile :
      (env : MigrateEnv J) (old : LegacyConfig) (r : Service J × Bool)
      → HasFile r.0
      → HasFile (then_add_cameras lib env old r).0
  then_add_cameras-HasFile env old (s, true) h =
      add_cameras-HasFile env.save_cameras 0 old.cameras s h
  then_add_cameras-HasFile env old (s, false) h = h

  then_settings-HasFile :
      (env : MigrateEnv J) (old : LegacyConfig) (r : Service J × Bool)
      → HasFile r.0
      → HasFile (then_settings lib env old r).0
  unfolding update_global
  then_settings-HasFile env old (s, false) h = h
  then_settings-HasFile env old (s, true) h =
      then_add_cameras-HasFile env old
        (update_global lib env.save_global_settings (λ g. (g, some (legacy_settings old g))) s)
        (change_global-HasFile env.save_global_settings (some (legacy_settings old s.global)) s h)

  choose_start_file :
      (file : Option J) (fresh migrated : Service J × Bool)
      → is_some file ≡ true
      → choose_start lib file fresh migrated ≡ fresh
  choose_start_file none fresh migrated h = absurd (cc h)
  choose_start_file (some text) fresh migrated h = refl

  -- A migration that got as far as the new service is not tried again, even if it failed at the settings
  -- or at a camera: from what it left on disk the next start only loads the new format, whatever stands
  -- in the old file, so that the cameras that were not taken over stay out.
  pub init_or_migrate_once :
      (env env' : MigrateEnv J) (old : LegacyConfig) (disk : Service J) (load : LoadEnv)
      (save : SaveEnv J) (legacy : Option (Option LegacyConfig))
      → (new_service lib env.load env.save_defaults disk).1 ≡ true
      → let left = (migrate_from_legacy lib env (some old) disk).0 in
        init_or_migrate lib env' load save legacy left ≡ new_service lib load save left
  unfolding init_or_migrate migrate_from_legacy
  init_or_migrate_once env env' old disk load save legacy h =
      let left = (migrate_from_legacy lib env (some old) disk).0 in
      choose_start_file left.global_file (new_service lib load save left)
        (migrate_first lib env' load save legacy left)
        (then_settings-HasFile env old (new_service lib env.load env.save_defaults disk)
          (new_service-HasFile env.load env.save_defaults disk h))
