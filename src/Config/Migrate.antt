-- ===== src/Config/Migrate.antt =====
-- internal/config/migrate.go: an old configuration file is taken over into the service.
pub mod Retry
mod Examples
use aviationwx_bridge.Prelude.{Bool, List, Option, [], false, none, some, true, ℕ, ◌+◌, ◌∷◌}
use aviationwx_bridge.Config.Values.{Camera, GlobalSettings, LegacyConfig}
use aviationwx_bridge.Config.Files.{SaveEnv, WriteAnswer}
use aviationwx_bridge.Config.Service.{Library, Service, add_camera, update_global}
use aviationwx_bridge.Config.Service.Loading.{LoadEnv, new_service}

-- what the disk answers during a migration; the saves of the cameras are counted
pub record MigrateEnv (J : Type 0) : Type 0 where
  pub load : LoadEnv
  pub save_defaults : SaveEnv J
  pub save_global_settings : WriteAnswer J
  pub save_cameras : ℕ → SaveEnv J

abbrev pub legacy_settings : LegacyConfig → GlobalSettings → GlobalSettings
legacy_settings legacy g = record g {
  version = legacy.version;
  timezone = legacy.timezone;
  global = legacy.global;
  queue = legacy.queue;
  sntp = legacy.sntp;
  web_console = legacy.web_console;
}

module _ {J : Type 0} (lib : Library J) where
  abbrev pub next_camera :
      Service J × Option Camera → (Service J → Service J × Bool) → Service J × Bool
  next_camera (s, none) rest = (s, false)
  next_camera (s, some cam) rest = rest s

  unfoldable pub add_cameras : (ℕ → SaveEnv J) → ℕ → List Camera → Service J → Service J × Bool
  add_cameras envs i [] s = (s, true)
  add_cameras envs i (cam ∷ cams) s =
      next_camera (add_camera lib (envs i) cam s) (add_cameras envs (i + 1) cams)

  abbrev pub then_add_cameras : MigrateEnv J → LegacyConfig → Service J × Bool → Service J × Bool
  then_add_cameras env legacy (s, false) = (s, false)
  then_add_cameras env legacy (s, true) = add_cameras env.save_cameras 0 legacy.cameras s

  abbrev pub then_settings : MigrateEnv J → LegacyConfig → Service J × Bool → Service J × Bool
  then_settings env legacy (s, false) = (s, false)
  then_settings env legacy (s, true) =
      then_add_cameras env legacy
        (update_global lib env.save_global_settings (λ g. (g, some (legacy_settings legacy g))) s)

  -- `MigrateFromLegacy` over the old file, none if it cannot be read; its rename at the end does not
  -- matter for the result
  unfoldable pub migrate_from_legacy :
      MigrateEnv J → Option LegacyConfig → Service J → Service J × Bool
  migrate_from_legacy env none disk = (disk, false)
  migrate_from_legacy env (some legacy) disk =
      then_settings env legacy (new_service lib env.load env.save_defaults disk)

  abbrev pub then_new_service : LoadEnv → SaveEnv J → Service J × Bool → Service J × Bool
  then_new_service load save (s, false) = (s, false)
  then_new_service load save (s, true) = new_service lib load save s

  -- whether global.json is there decides
  abbrev pub choose_start : Option J → Service J × Bool → Service J × Bool → Service J × Bool
  choose_start (some text) fresh migrated = fresh
  choose_start none fresh migrated = migrated

  abbrev pub migrate_first :
      MigrateEnv J
      → LoadEnv
      → SaveEnv J
      → Option (Option LegacyConfig)
      → Service J
      → Service J × Bool
  migrate_first env load save none disk = new_service lib load save disk
  migrate_first env load save (some old) disk =
      then_new_service load save (migrate_from_legacy env old disk)

  -- `InitOrMigrate`; `legacy` is none if there is no old file, and its content is none if it cannot be
  -- read
  unfoldable pub init_or_migrate :
      MigrateEnv J
      → LoadEnv
      → SaveEnv J
      → Option (Option LegacyConfig)
      → Service J
      → Service J × Bool
  init_or_migrate env load save legacy disk =
      choose_start disk.global_file (new_service lib load save disk)
        (migrate_first env load save legacy disk)
