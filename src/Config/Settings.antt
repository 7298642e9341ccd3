-- ===== src/Config/Settings.antt =====
-- How the settings are read: `GetWebPassword`, `GetWebPort` and the limits of service.go, and the image
-- quality of types.go.
use aviationwx_bridge.Prelude.{Bool, Option, [], false, if◌then◌else◌, ltb, none, some, ◌||◌}
use aviationwx_bridge.Queue.Names.{Int64, Name, name_eq, neg, pos}
use aviationwx_bridge.Config.Values.{
  Global, GlobalSettings, ImageProcessing, default_password, is_zero_int, positive,
}

-- `GetWebPassword` of the service
unfoldable pub get_web_password : GlobalSettings → Name
get_web_password g = elim g.web_console [
  | none ↦ default_password
  | some w ↦ if name_eq w.password [] then default_password else w.password
]

-- `GetWebPort` of the service
unfoldable pub get_web_port : GlobalSettings → Int64
get_web_port g = elim g.web_console [
  | none ↦ pos 1229
  | some w ↦ if is_zero_int w.port then pos 1229 else w.port
]

-- the top value, or else the one of the global settings, if it is positive
abbrev pub either_setting : Int64 → Option Int64 → Int64
either_setting n none = n
either_setting n (some m) = if positive n then n else m

abbrev pub uploads_of : Global → Int64
uploads_of g = g.max_concurrent_uploads

abbrev pub captures_of : Global → Int64
captures_of g = g.max_concurrent_captures

abbrev pub option_map {ℓ κ} : {A : Type ℓ} {B : Type κ} → (A → B) → Option A → Option B
option_map f none = none
option_map f (some a) = some (f a)

unfoldable pub effective_max_concurrent_uploads : GlobalSettings → Int64
effective_max_concurrent_uploads g =
    let n = either_setting g.max_concurrent_uploads (option_map uploads_of g.global) in
    if positive n then n else pos 2

-- `profiled` is `hardware.DefaultMaxConcurrentCaptures()`
unfoldable pub effective_max_concurrent_captures : Int64 → GlobalSettings → Int64
effective_max_concurrent_captures profiled g =
    let n = either_setting g.max_concurrent_captures (option_map captures_of g.global) in
    if positive n then n else profiled

unfoldable pub get_quality : Option ImageProcessing → Int64
get_quality none = pos 0
get_quality (some i) = elim i.quality [
  | pos n ↦ if ltb 100 n then pos 100 else pos n
  | neg n ↦ pos 0
]

unfoldable pub needs_processing : Option ImageProcessing → Bool
needs_processing none = false
needs_processing (some i) = positive i.max_width || positive i.max_height || positive i.quality
