-- ===== src/Config/Service/Examples.antt =====
-- The theorems about the configuration at concrete inputs, and tests.
use aviationwx_bridge.Prelude.{
  All, Bool, List, Option, [], false, none, refl, some, subst, true, ◌∷◌, ◌≡◌,
}
use aviationwx_bridge.Queue.Names.{Name, decimal, decimal_fuel, pos}
use aviationwx_bridge.Config.Ids.{
  allocate_loop, allocate_unique_id, candidate, is_id_byte, slug_id_from_name, slug_parts,
  validate_config_file_id,
}
use aviationwx_bridge.Config.Values.{Camera, GlobalSettings, Station, Upload, default_global}
use aviationwx_bridge.Config.Upload.{
  check_duplicate_upload, duplicate_loop, identity_of, normalize_upload_port, trim_space,
  upload_identity_key,
}
use aviationwx_bridge.Config.Files.{
  File, SaveEnv, back_up, contained_config_path, ext, remove_file, save_at, save_text, write_file,
  written,
}
use aviationwx_bridge.Config.Station.{
  StationJson, davis, normalize_station_defaults, validate_polled_station, validate_station,
}
use aviationwx_bridge.Config.Api.{validate_api_settings}
use aviationwx_bridge.Config.Service.{
  GlobalUpdate, Library, Service, add_camera, camera_added, camera_deleted, camera_updated,
  delete_camera, global_updated, save_camera, save_camera_file, station_added, update_camera,
  update_global,
}
use aviationwx_bridge.Config.Service.Stations.{add_station, save_station_file}
use aviationwx_bridge.Config.Service.Loading.{new_service, reload, restarted}
use aviationwx_bridge.Config.Service.Operations.{
  IsInSync, IsWholeOp, Op, WritesOwn, add_camera_op, add_station_op, apply, delete_camera_op, run,
  update_camera_op, update_global_op,
}
use aviationwx_bridge.Config.Service.Restart.{
  IsRestored, all_readable, reading, reload-run_restores,
}
use aviationwx_bridge.Config.Service.Accounts.Duplicates.{HasOwnAccounts}
use aviationwx_bridge.Config.Service.Accounts.{run-HasOwnAccounts}
use aviationwx_bridge.Config.Service.View.{Trace, view}
use aviationwx_bridge.Config.Service.Refinement.{run_refines}
use aviationwx_bridge.Config.Service.Reset.{IsReset, new_service_resets}

-- a text of JSON, by what was written, and one that does not parse
pub data Text : Type 0 where
  of_camera : Camera → Text
  of_station : StationJson → Text
  of_global : GlobalSettings → Text
  garbage : Text

abbrev plain_local : Name → Bool
plain_local [] = false
plain_local (c ∷ s) = is_id_byte c

abbrev pub library : Library Text
library = record {
  lower = λ c. c;
  paths = record { is_local = plain_local; abs_ok = true };
  split = λ s. none;
  parse_url = λ s. none;
  encode_camera = λ c. some (of_camera c);
  decode_camera = λ t. elim t [ of_camera c ↦ some c | _ ↦ none ];
  encode_station =
      λ st. some (of_station (record { read_enabled = some st.enabled; read_fields = st }));
  decode_station = λ t. elim t [ of_station j ↦ some j | _ ↦ none ];
  encode_global = λ g. some (of_global g);
  decode_global = λ t. elim t [ of_global g ↦ some g | _ ↦ none ];
}

abbrev pub whole : SaveEnv Text
whole = record { backup = written; write = written }

abbrev account_of : Name → Upload
account_of user = record {
  protocol = [];
  host = b'h' ∷ [];
  port = pos 0;
  username = user;
  password = [];
  base_path = [];
  timeout_connect_seconds = pos 0;
  timeout_upload_seconds = pos 0;
}

abbrev pub camera_named : Name → Name → Camera
camera_named name user = record {
  id = [];
  name = name;
  type = b'h' ∷ b't' ∷ b't' ∷ b'p' ∷ [];
  enabled = true;
  snapshot_url = [];
  auth = none;
  onvif = none;
  rtsp = none;
  capture_interval_seconds = pos 60;
  image = none;
  upload = some (account_of user);
  queue = none;
  remote_path = [];
  interval_seconds = pos 0;
}

abbrev davis_station : Station
davis_station = record {
  id = [];
  name = b'r' ∷ b'o' ∷ b'o' ∷ b'f' ∷ [];
  type = davis;
  enabled = true;
  host = b'w' ∷ [];
  poll_interval_seconds = pos 0;
  txid = none;
  listen_addr = [];
  listen_path = [];
  dialect = [];
}

-- a fresh installation after its first start
abbrev pub fresh_service : Service Text
fresh_service = record {
  global = default_global;
  cameras = [];
  stations = [];
  events = [];
  global_file = some (of_global default_global);
  global_backup = none;
  camera_files = [];
  station_files = [];
}

abbrev rename_to : Name → Camera → Option Camera
rename_to name c = some (record c { name = name })

-- a change of the settings that writes only to its copy
abbrev in_zone : Name → GlobalUpdate
in_zone zone g = (g, some (record g { timezone = zone }))

-- two cameras, a third with the account of the first, a station, an update, a removal and a time zone
abbrev session : List (Op Text)
session =
    add_camera_op whole (camera_named (b'a' ∷ []) (b'u' ∷ []))
    ∷ add_camera_op whole (camera_named (b'b' ∷ []) (b'v' ∷ []))
    ∷ add_camera_op whole (camera_named (b'c' ∷ []) (b'u' ∷ []))
    ∷ add_station_op whole davis_station
    ∷ update_camera_op whole (b'a' ∷ []) (rename_to (b'd' ∷ []))
    ∷ delete_camera_op true (b'b' ∷ [])
    ∷ update_global_op written (in_zone (b'Z' ∷ []))
    ∷ []

abbrev after_session : Service Text
after_session = run library session fresh_service

session_events :
    after_session.events
    ≡ camera_added (b'a' ∷ [])
      ∷ camera_added (b'b' ∷ [])
      ∷ station_added (b'r' ∷ b'o' ∷ b'o' ∷ b'f' ∷ [])
      ∷ camera_updated (b'a' ∷ [])
      ∷ camera_deleted (b'b' ∷ [])
      ∷ global_updated
      ∷ []
unfolding run apply add_camera save_camera save_camera_file save_at save_text back_up write_file
    allocate_unique_id allocate_loop candidate slug_id_from_name slug_parts validate_config_file_id
    contained_config_path trim_space check_duplicate_upload duplicate_loop identity_of
    upload_identity_key normalize_upload_port decimal decimal_fuel add_station save_station_file
    normalize_station_defaults validate_station validate_polled_station update_camera delete_camera
    remove_file update_global validate_api_settings
session_events = refl

fresh_service-IsInSync : IsInSync library fresh_service
fresh_service-IsInSync = (
  (tt, λ id a e. absurd (cc e)),
  (tt, λ id a e. absurd (cc e)),
  (of_global default_global, refl, refl),
)

some_camera :
    (c : Camera) (t : Text) → library.encode_camera c ≡ some t → library.decode_camera t ≡ some c
some_camera c t e =
    let is_text : of_camera c ≡ t = cc e in
    subst (λ u. library.decode_camera u ≡ some c) is_text refl

some_station :
    (st : Station) (t : Text)
    → library.encode_station st ≡ some t
    → library.decode_station t ≡ some (record { read_enabled = some st.enabled; read_fields = st })
some_station st t e =
    let j : StationJson = record { read_enabled = some st.enabled; read_fields = st } in
    let is_text : of_station j ≡ t = cc e in
    subst (λ u. library.decode_station u ≡ some j) is_text refl

some_global :
    (g : GlobalSettings) (t : Text)
    → library.encode_global g ≡ some t
    → library.decode_global t ≡ some g
some_global g t e =
    let is_text : of_global g ≡ t = cc e in
    subst (λ u. library.decode_global u ≡ some g) is_text refl

all_whole : All IsWholeOp session
all_whole = (tt, (tt, (tt, (tt, (tt, (tt, (tt, tt)))))))

all_own : All WritesOwn session
all_own = (tt, (tt, (tt, (tt, (tt, (tt, ((λ g. refl), tt)))))))

reload-run_restores_example :
    IsRestored library
      (run library session fresh_service)
      (reload library reading (restarted library (run library session fresh_service)))
reload-run_restores_example =
    reload-run_restores library some_camera some_station some_global session fresh_service all_whole
      all_own fresh_service-IsInSync

run-HasOwnAccounts_example : HasOwnAccounts library (run library session fresh_service).cameras
run-HasOwnAccounts_example =
    run-HasOwnAccounts library session fresh_service
      (refl, λ id other c d f g apart e. absurd (cc f))

-- a camera file that was cut short
abbrev broken_file : File Text
broken_file = record {
  name = b'a' ∷ b'.' ∷ b'j' ∷ b's' ∷ b'o' ∷ b'n' ∷ [];
  is_dir = false;
  content = garbage;
}

abbrev broken_disk : Service Text
broken_disk = record fresh_service { camera_files = broken_file ∷ [] }

new_service_resets_example :
    IsReset library (of_global default_global) (new_service library reading whole broken_disk)
unfolding ext
new_service_resets_example =
    new_service_resets library reading whole broken_disk (of_global default_global) all_readable
      broken_file [] [] refl refl refl refl refl refl

run_refines_example :
    Trace
      (view library fresh_service)
      (run library session fresh_service).events
      (view library (run library session fresh_service))
run_refines_example = run_refines library session fresh_service all_own refl
