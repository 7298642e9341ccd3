-- ===== src/Config/Values.antt =====
-- internal/config/types.go, the record of a station in station.go and the settings of service.go and
-- api.go. A string is the list of its characters. An `int` may be negative; a `float64` of these
-- records is a fraction. A pointer that may be nil is an option.
use aviationwx_bridge.Prelude.{Bool, List, Option, [], false, none, some, suc, true, zero, ◌∷◌}
use aviationwx_bridge.Queue.Names.{Int64, Name, neg, pos}
use aviationwx_bridge.Queue.State.{Ratio}

-- n > 0
abbrev pub positive : Int64 → Bool
positive (pos zero) = false
positive (pos (suc n)) = true
positive (neg n) = false

-- n == 0
abbrev pub is_zero_int : Int64 → Bool
is_zero_int (pos zero) = true
is_zero_int (pos (suc n)) = false
is_zero_int (neg zero) = true
is_zero_int (neg (suc n)) = false

pub record ImageProcessing : Type 0 where
  pub max_width : Int64
  pub max_height : Int64
  pub quality : Int64

pub record Upload : Type 0 where
  pub protocol : Name
  pub host : Name
  pub port : Int64
  pub username : Name
  pub password : Name
  pub base_path : Name
  pub timeout_connect_seconds : Int64
  pub timeout_upload_seconds : Int64

pub record Auth : Type 0 where
  pub type : Name
  pub username : Name
  pub password : Name
  pub token : Name

pub record Onvif : Type 0 where
  pub endpoint : Name
  pub username : Name
  pub password : Name
  pub profile_token : Name

pub record Rtsp : Type 0 where
  pub url : Name
  pub username : Name
  pub password : Name
  pub substream : Bool

pub record QueueCamera : Type 0 where
  pub enabled : Bool
  pub max_files : Int64
  pub max_size_mb : Int64
  pub max_age_seconds : Int64
  pub thinning_enabled : Bool
  pub protect_newest : Int64
  pub protect_oldest : Int64
  pub threshold_catching_up : Ratio
  pub threshold_degraded : Ratio
  pub threshold_critical : Ratio
  pub pause_capture_on_critical : Bool
  pub resume_threshold : Ratio

pub record Camera : Type 0 where
  pub id : Name
  pub name : Name
  pub type : Name
  pub enabled : Bool
  pub snapshot_url : Name
  pub auth : Option Auth
  pub onvif : Option Onvif
  pub rtsp : Option Rtsp
  pub capture_interval_seconds : Int64
  pub image : Option ImageProcessing
  pub upload : Option Upload
  pub queue : Option QueueCamera
  pub remote_path : Name
  pub interval_seconds : Int64

pub record Station : Type 0 where
  pub id : Name
  pub name : Name
  pub type : Name
  pub enabled : Bool
  pub host : Name
  pub poll_interval_seconds : Int64
  pub txid : Option Int64
  pub listen_addr : Name
  pub listen_path : Name
  pub dialect : Name

pub record Sntp : Type 0 where
  pub enabled : Bool
  pub servers : List Name
  pub check_interval_seconds : Int64
  pub max_offset_seconds : Int64
  pub timeout_seconds : Int64
  pub stale_threshold_hours : Int64

pub record BasicAuth : Type 0 where
  pub username : Name
  pub password : Name

pub record WebConsole : Type 0 where
  pub enabled : Bool
  pub port : Int64
  pub password : Name
  pub basic_auth : Option BasicAuth

pub record QueueGlobal : Type 0 where
  pub base_path : Name
  pub max_total_size_mb : Int64
  pub memory_check_seconds : Int64
  pub emergency_thin_ratio : Ratio
  pub max_heap_mb : Int64
  pub defaults : Option QueueCamera

pub record Backoff : Type 0 where
  pub initial_seconds : Int64
  pub max_seconds : Int64
  pub multiplier : Ratio
  pub jitter : Bool

pub record DegradedMode : Type 0 where
  pub enabled : Bool
  pub failure_threshold : Int64
  pub concurrency_limit : Int64
  pub slow_interval_multiplier : Ratio

pub record TimeAuthority : Type 0 where
  pub camera_tolerance_seconds : Int64
  pub camera_warn_drift_seconds : Int64
  pub camera_reject_drift_seconds : Int64

pub record Global : Type 0 where
  pub capture_timeout_seconds : Int64
  pub rtsp_timeout_seconds : Int64
  pub max_concurrent_uploads : Int64
  pub max_concurrent_captures : Int64
  pub backoff : Option Backoff
  pub degraded_mode : Option DegradedMode
  pub time_authority : Option TimeAuthority

pub record ApiSettings : Type 0 where
  pub enabled : Bool
  pub key : Name
  pub base_url : Name

pub record GlobalSettings : Type 0 where
  pub version : Int64
  pub timezone : Name
  pub update_channel : Name
  pub max_concurrent_uploads : Int64
  pub max_concurrent_captures : Int64
  pub timeout_connect_seconds : Int64
  pub timeout_upload_seconds : Int64
  pub global : Option Global
  pub queue : Option QueueGlobal
  pub sntp : Option Sntp
  pub web_console : Option WebConsole
  pub api : Option ApiSettings

-- the root of the old file
pub record LegacyConfig : Type 0 where
  pub version : Int64
  pub timezone : Name
  pub cameras : List Camera
  pub global : Option Global
  pub queue : Option QueueGlobal
  pub sntp : Option Sntp
  pub web_console : Option WebConsole
  pub upload : Option Upload

-- "pool.ntp.org" and "time.google.com"
abbrev pub pool_server : Name
pool_server = b'p' ∷ b'o' ∷ b'o' ∷ b'l' ∷ b'.' ∷ b'n' ∷ b't' ∷ b'p' ∷ b'.' ∷ b'o' ∷ b'r' ∷ b'g' ∷ []

abbrev pub google_server : Name
google_server =
    b't' ∷ b'i' ∷ b'm' ∷ b'e' ∷ b'.' ∷ b'g' ∷ b'o' ∷ b'o' ∷ b'g' ∷ b'l' ∷ b'e' ∷ b'.' ∷ b'c' ∷ b'o'
    ∷ b'm' ∷ []

abbrev pub default_sntp : Sntp
default_sntp = record {
  enabled = true;
  servers = pool_server ∷ google_server ∷ [];
  check_interval_seconds = pos 300;
  max_offset_seconds = pos 5;
  timeout_seconds = pos 5;
  stale_threshold_hours = pos 24;
}

-- "aviationwx"
abbrev pub default_password : Name
default_password = b'a' ∷ b'v' ∷ b'i' ∷ b'a' ∷ b't' ∷ b'i' ∷ b'o' ∷ b'n' ∷ b'w' ∷ b'x' ∷ []

abbrev pub default_web_console : WebConsole
default_web_console = record {
  enabled = true;
  port = pos 1229;
  password = default_password;
  basic_auth = none;
}

-- the settings that `NewService` falls back to
abbrev pub default_global : GlobalSettings
default_global = record {
  version = pos 2;
  timezone = b'U' ∷ b'T' ∷ b'C' ∷ [];
  update_channel = b'l' ∷ b'a' ∷ b't' ∷ b'e' ∷ b's' ∷ b't' ∷ [];
  max_concurrent_uploads = pos 2;
  max_concurrent_captures = pos 0;
  timeout_connect_seconds = pos 60;
  timeout_upload_seconds = pos 300;
  global = none;
  queue = none;
  sntp = some default_sntp;
  web_console = some default_web_console;
  api = none;
}
