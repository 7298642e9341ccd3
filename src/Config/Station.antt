-- ===== src/Config/Station.antt =====
-- internal/config/station.go: the defaults and the validation of a weather station, and how it is read.
pub mod Defaults
use aviationwx_bridge.Prelude.{
  Bool, Option, [], false, if◌then◌else◌, leb, ltb, none, not, some, suc, true, zero, ℕ, ◌&&◌, ◌||◌,
  ◌∷◌,
}
use aviationwx_bridge.Queue.Names.{Int64, Name, name_eq, neg, parse_int, pos}
use aviationwx_bridge.Scheduler.Upload.Transfer.{contains_text, has_prefix}
use aviationwx_bridge.Config.Ids.{validate_config_file_id}
use aviationwx_bridge.Config.Values.{Station, positive}
use aviationwx_bridge.Config.Upload.{trim_space}

-- the types of stations
abbrev pub davis : Name
davis =
    b'd' ∷ b'a' ∷ b'v' ∷ b'i' ∷ b's' ∷ b'_' ∷ b'w' ∷ b'e' ∷ b'a' ∷ b't' ∷ b'h' ∷ b'e' ∷ b'r' ∷ b'l'
    ∷ b'i' ∷ b'n' ∷ b'k' ∷ b'_' ∷ b'l' ∷ b'i' ∷ b'v' ∷ b'e' ∷ []

abbrev pub interceptor : Name
interceptor =
    b'h' ∷ b't' ∷ b't' ∷ b'p' ∷ b'_' ∷ b'i' ∷ b'n' ∷ b't' ∷ b'e' ∷ b'r' ∷ b'c' ∷ b'e' ∷ b'p' ∷ b't'
    ∷ b'o' ∷ b'r' ∷ []

abbrev pub ecowitt : Name
ecowitt =
    b'e' ∷ b'c' ∷ b'o' ∷ b'w' ∷ b'i' ∷ b't' ∷ b't' ∷ b'_' ∷ b'g' ∷ b'a' ∷ b't' ∷ b'e' ∷ b'w' ∷ b'a'
    ∷ b'y' ∷ []

-- both poll floors
abbrev pub poll_floor : ℕ
poll_floor = 10

abbrev pub default_listen_addr : Name
default_listen_addr =
    b'0' ∷ b'.' ∷ b'0' ∷ b'.' ∷ b'0' ∷ b'.' ∷ b'0' ∷ b':' ∷ b'8' ∷ b'0' ∷ b'9' ∷ b'0' ∷ []

abbrev pub default_listen_path : Name
default_listen_path =
    b'/' ∷ b'w' ∷ b'e' ∷ b'a' ∷ b't' ∷ b'h' ∷ b'e' ∷ b'r' ∷ b's' ∷ b't' ∷ b'a' ∷ b't' ∷ b'i' ∷ b'o'
    ∷ b'n' ∷ b'/' ∷ b'u' ∷ b'p' ∷ b'd' ∷ b'a' ∷ b't' ∷ b'e' ∷ b'w' ∷ b'e' ∷ b'a' ∷ b't' ∷ b'h'
    ∷ b'e' ∷ b'r' ∷ b's' ∷ b't' ∷ b'a' ∷ b't' ∷ b'i' ∷ b'o' ∷ b'n' ∷ b'.' ∷ b'p' ∷ b'h' ∷ b'p' ∷ []

abbrev pub wunderground : Name
wunderground =
    b'w' ∷ b'u' ∷ b'n' ∷ b'd' ∷ b'e' ∷ b'r' ∷ b'g' ∷ b'r' ∷ b'o' ∷ b'u' ∷ b'n' ∷ b'd' ∷ []

-- the text of a station before its defaults: `enabled` may be missing
pub record StationJson : Type 0 where
  pub read_enabled : Option Bool
  pub read_fields : Station

-- `UnmarshalJSON`
unfoldable pub unmarshal_station : StationJson → Station
unmarshal_station j = elim j.read_enabled [
  | none ↦ record j.read_fields { enabled = true }
  | some e ↦ record j.read_fields { enabled = e }
]

abbrev pub or_text : Name → Name → Name
or_text [] default = default
or_text (c ∷ s) default = c ∷ s

unfoldable pub normalize_station_defaults : Station → Station
normalize_station_defaults st =
    if name_eq st.type davis || name_eq st.type ecowitt
    then if positive st.poll_interval_seconds
      then st
      else record st { poll_interval_seconds = pos poll_floor }
    else if name_eq st.type interceptor
    then record st {
      listen_addr = or_text (trim_space st.listen_addr) default_listen_addr;
      listen_path = or_text (trim_space st.listen_path) default_listen_path;
      dialect = or_text (trim_space st.dialect) wunderground;
    }
    else st

-- an interval that is set is not below the floor
abbrev pub slow_enough : Int64 → Bool
slow_enough (pos zero) = true
slow_enough (pos (suc n)) = not (ltb (suc n) poll_floor)
slow_enough (neg n) = true

-- `validateDavisStation` and `validateEcowittStation`
unfoldable pub validate_polled_station : Station → Bool
validate_polled_station st =
    if name_eq (trim_space st.host) [] then false else slow_enough st.poll_interval_seconds

-- the port of a listen address: an integer from 1 to 65535
abbrev pub valid_port : Option Int64 → Bool
valid_port none = false
valid_port (some (pos n)) = leb 1 n && leb n 65535
valid_port (some (neg n)) = false

abbrev pub valid_address : Option (Name × Name) → Bool
valid_address none = false
valid_address (some a) =
    if name_eq a.1 [] then false else if name_eq a.0 [] then false else valid_port (parse_int a.1)

-- `validateHTTPInterceptorStation`, where `split` is `net.SplitHostPort`
unfoldable pub validate_interceptor_station : (Name → Option (Name × Name)) → Station → Bool
validate_interceptor_station split st =
    let path = or_text (trim_space st.listen_path) default_listen_path in
    if not (valid_address (split (or_text (trim_space st.listen_addr) default_listen_addr)))
    then false
    else if not (has_prefix (b'/' ∷ []) path)
    then false
    else if contains_text (b'.' ∷ b'.' ∷ []) path
    then false
    else name_eq (or_text (trim_space st.dialect) wunderground) wunderground

unfoldable pub validate_station : (Name → Bool) → (Name → Option (Name × Name)) → Station → Bool
validate_station is_local split st =
    if not (validate_config_file_id is_local st.id)
    then false
    else if name_eq (trim_space st.name) []
    then false
    else if name_eq st.type davis
    then validate_polled_station st
    else if name_eq st.type ecowitt
    then validate_polled_station st
    else if name_eq st.type interceptor
    then validate_interceptor_station split st
    else false
