-- ===== src/Config/Migrate/Examples.antt =====
-- A migration whose second camera has the account of the first.
use aviationwx_bridge.Prelude.{List, [], none, refl, some, ◌∷◌, ◌≡◌}
use aviationwx_bridge.Queue.Names.{Name, decimal, decimal_fuel, pos}
use aviationwx_bridge.Queue.Names.Table.{Table}
use aviationwx_bridge.Config.Ids.{
  allocate_loop, allocate_unique_id, candidate, slug_id_from_name, slug_parts,
  validate_config_file_id,
}
use aviationwx_bridge.Config.Values.{Camera, LegacyConfig, default_sntp}
use aviationwx_bridge.Config.Upload.{
  check_duplicate_upload, duplicate_loop, identity_of, migrate_protocol, normalize_upload_config,
  normalize_upload_port, trim_space, upload_identity_key,
}
use aviationwx_bridge.Config.Files.{
  back_up, contained_config_path, ext, save_at, save_text, write_file, written,
}
use aviationwx_bridge.Config.Api.{validate_api_settings}
use aviationwx_bridge.Config.Service.{
  Service, add_camera, save_camera, save_camera_file, save_global, update_global,
}
use aviationwx_bridge.Config.Service.Loading.{
  empty_service, load_dir, load_loop, load_stations, new_service, normalize_camera, reload,
  use_camera_text,
}
use aviationwx_bridge.Config.Service.Restart.{reading}
use aviationwx_bridge.Config.Service.Examples.{Text, camera_named, library, whole}
use aviationwx_bridge.Config.Migrate.{MigrateEnv, add_cameras, init_or_migrate, migrate_from_legacy}
use aviationwx_bridge.Config.Migrate.Retry.{init_or_migrate_once}

abbrev old_config : LegacyConfig
old_config = record {
  version = pos 2;
  timezone = b'U' ∷ b'T' ∷ b'C' ∷ [];
  cameras =
      camera_named (b'a' ∷ []) (b'u' ∷ [])
      ∷ camera_named (b'b' ∷ []) (b'u' ∷ [])
      ∷ camera_named (b'c' ∷ []) (b'w' ∷ [])
      ∷ [];
  global = none;
  queue = none;
  sntp = some default_sntp;
  web_console = none;
  upload = none;
}

abbrev empty_disk : Service Text
empty_disk = empty_service library none none [] []

abbrev migrate_env : MigrateEnv Text
migrate_env = record {
  load = reading;
  save_defaults = whole;
  save_global_settings = written;
  save_cameras = λ i. whole;
}

abbrev left_over : Service Text
left_over = (migrate_from_legacy library migrate_env (some old_config) empty_disk).0

-- the third camera is lost too, at this and at the next start
abbrev ids : Table Camera → List Name
ids [] = []
ids (p ∷ ps) = p.0 ∷ ids ps

lost_cameras :
    ids
      (init_or_migrate library migrate_env reading whole
        (some (some old_config))
        left_over).0.cameras
    ≡ (b'a' ∷ []) ∷ []
unfolding init_or_migrate migrate_from_legacy new_service reload save_global load_loop load_dir
    load_stations use_camera_text normalize_camera normalize_upload_config migrate_protocol ext
    update_global validate_api_settings add_cameras add_camera save_camera save_camera_file save_at
    save_text back_up write_file allocate_unique_id allocate_loop candidate slug_id_from_name
    slug_parts validate_config_file_id contained_config_path trim_space check_duplicate_upload
    duplicate_loop identity_of upload_identity_key normalize_upload_port decimal decimal_fuel
lost_cameras = refl

init_or_migrate_once_example :
    init_or_migrate library migrate_env reading whole (some (some old_config)) left_over
    ≡ new_service library reading whole left_over
unfolding new_service reload save_global
init_or_migrate_once_example =
    init_or_migrate_once library migrate_env migrate_env old_config empty_disk reading whole
      (some (some old_config)) refl
