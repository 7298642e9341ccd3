-- ===== src/Config/Api.antt =====
-- internal/config/api.go: the settings of the link to the API. A key is ASCII where its hint is cut out. `parse_url` is `url.Parse` with its
-- scheme and host.
use aviationwx_bridge.Prelude.{
  Bool, Option, [], drop, false, if◌then◌else◌, leb, length, none, not, some, take, true, ℕ, ◌&&◌,
  ◌++◌, ◌-◌, ◌==◌, ◌||◌, ◌∷◌,
}
use aviationwx_bridge.Queue.Names.{Name, name_eq}
use aviationwx_bridge.Scheduler.Upload.Transfer.{has_prefix}
use aviationwx_bridge.Config.Values.{ApiSettings}
use aviationwx_bridge.Config.Upload.{trim_space}

abbrev pub default_api_base_url : Name
default_api_base_url =
    b'h' ∷ b't' ∷ b't' ∷ b'p' ∷ b's' ∷ b':' ∷ b'/' ∷ b'/' ∷ b'a' ∷ b'p' ∷ b'i' ∷ b'.' ∷ b'a' ∷ b'v'
    ∷ b'i' ∷ b'a' ∷ b't' ∷ b'i' ∷ b'o' ∷ b'n' ∷ b'w' ∷ b'x' ∷ b'.' ∷ b'o' ∷ b'r' ∷ b'g' ∷ []

abbrev pub api_key_prefix : Name
api_key_prefix = b'a' ∷ b'w' ∷ b'x' ∷ b'b' ∷ b'_' ∷ []

abbrev pub api_key_secret_length : ℕ
api_key_secret_length = 48

-- strings.TrimRight of slashes
abbrev pub cons_path : ℕ → Name → Name
cons_path c [] = if c == b'/' then [] else c ∷ []
cons_path c (d ∷ s) = c ∷ d ∷ s

abbrev pub trim_slashes : Name → Name
trim_slashes [] = []
trim_slashes (c ∷ s) = cons_path c (trim_slashes s)

unfoldable pub effective_api_base_url : Option ApiSettings → Name
effective_api_base_url none = default_api_base_url
effective_api_base_url (some api) =
    let u = trim_space api.base_url in if name_eq u [] then default_api_base_url else trim_slashes u

unfoldable pub api_configured : Option ApiSettings → Bool
api_configured none = false
api_configured (some api) = api.enabled && not (name_eq (trim_space api.key) [])

unfoldable pub api_key_hint : Name → Name
api_key_hint key0 =
    let key = trim_space key0 in
    let dots = b'.' ∷ b'.' ∷ b'.' ∷ [] in
    if name_eq key []
    then []
    else if leb (length key) 12
    then api_key_prefix ++ dots
    else take 8 key ++ (dots ++ drop (length key - 4) key)

-- a letter or digit that is ASCII; the loop refuses any other character
abbrev pub is_key_char : ℕ → Bool
is_key_char c = leb b'a' c && leb c b'z' || leb b'A' c && leb c b'Z' || leb b'0' c && leb c b'9'

abbrev pub all_key_chars : Name → Bool
all_key_chars [] = true
all_key_chars (c ∷ s) = is_key_char c && all_key_chars s

unfoldable pub valid_api_key_shape : Name → Bool
valid_api_key_shape key =
    let secret = drop (length api_key_prefix) key in
    if not (has_prefix api_key_prefix key)
    then false
    else if not (length secret == api_key_secret_length)
    then false
    else all_key_chars secret

-- the scheme must be https and the host must be there
abbrev pub valid_url : Option (Name × Name) → Bool
valid_url none = false
valid_url (some u) =
    if not (name_eq u.0 (b'h' ∷ b't' ∷ b't' ∷ b'p' ∷ b's' ∷ []))
    then false
    else not (name_eq u.1 [])

unfoldable pub validate_api_settings : (Name → Option (Name × Name)) → Option ApiSettings → Bool
validate_api_settings parse_url none = true
validate_api_settings parse_url (some api) =
    let key = trim_space api.key in
    let base = trim_space api.base_url in
    if not api.enabled
    then true
    else if name_eq key []
    then false
    else if not (valid_api_key_shape key)
    then false
    else if name_eq base []
    then true
    else valid_url (parse_url base)
