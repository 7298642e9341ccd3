-- ===== src/Config/Ids.antt =====
-- camera_id.go, station_id.go and config_file_id.go of internal/config. A display name is the list of
-- its characters; `lower` is the lower case of one of them (`strings.ToLower`). `is_local` is
-- `filepath.IsLocal`.
pub mod Safe
use aviationwx_bridge.Prelude.{
  Bool, List, [], false, if◌then◌else◌, leb, length, ltb, not, suc, take, true, zero, ℕ, ◌&&◌, ◌++◌,
  ◌+◌, ◌==◌, ◌||◌, ◌∷◌,
}
use aviationwx_bridge.Queue.Names.{Name, decimal, name_eq}
use aviationwx_bridge.Scheduler.Upload.Transfer.{contains_text}

abbrev pub max_slug_len : ℕ
max_slug_len = 64

-- a-z and 0-9
abbrev pub is_slug_byte : ℕ → Bool
is_slug_byte c = leb b'a' c && leb c b'z' || leb b'0' c && leb c b'9'

abbrev pub flush : Name → List Name → List Name
flush [] parts = parts
flush (c ∷ cur) parts = parts ++ ((c ∷ cur) ∷ [])

-- the loop over the characters, with the part in hand and the parts before it
unfoldable pub slug_parts : (ℕ → ℕ) → Name → List Name → Name → List Name
slug_parts lower cur parts [] = flush cur parts
slug_parts lower cur parts (r ∷ s) =
    let more = slug_parts lower (cur ++ (lower r ∷ [])) parts s in
    let next_part = slug_parts lower [] (flush cur parts) s in
    if is_slug_byte (lower r) then more else next_part

-- strings.Join with hyphens
abbrev pub join : List Name → Name
join [] = []
join (p ∷ []) = p
join (p ∷ q ∷ ps) = p ++ (b'-' ∷ join (q ∷ ps))

-- strings.TrimRight of hyphens
abbrev pub cons_trimmed : ℕ → Name → Name
cons_trimmed c [] = if c == b'-' then [] else c ∷ []
cons_trimmed c (d ∷ s) = c ∷ d ∷ s

abbrev pub trim_right : Name → Name
trim_right [] = []
trim_right (c ∷ s) = cons_trimmed c (trim_right s)

-- `slugIDFromName`; trimming spaces first changes nothing, as no space stands in a part
unfoldable pub slug_id_from_name : (ℕ → ℕ) → Name → Name
slug_id_from_name lower name =
    let out = join (slug_parts lower [] [] name) in
    if ltb max_slug_len (length out) then trim_right (take max_slug_len out) else out

-- `base`, `base-2`, `base-3`, …
unfoldable pub candidate : Name → ℕ → Name
candidate base i = if i == 0 then base else base ++ (b'-' ∷ decimal (i + 1))

unfoldable pub allocate_loop : (Name → Bool) → Name → ℕ → ℕ → Name
allocate_loop taken base zero i = base ++ (b'-' ∷ b'x' ∷ [])
allocate_loop taken base (suc rounds) i =
    let rest = allocate_loop taken base rounds (i + 1) in
    if taken (candidate base i) then rest else candidate base i

abbrev pub base_or : Name → Name → Name
base_or default [] = default
base_or default (c ∷ s) = c ∷ s

-- `allocateUniqueCameraIDLocked` and `allocateUniqueStationIDLocked`, by the name that stands for an
-- empty slug
unfoldable pub allocate_unique_id : (ℕ → ℕ) → Name → (Name → Bool) → Name → Name
allocate_unique_id lower default taken display_name =
    allocate_loop taken (base_or default (slug_id_from_name lower display_name)) 1000 0

-- [A-Za-z0-9-]
abbrev pub is_id_byte : ℕ → Bool
is_id_byte c = is_slug_byte c || leb b'A' c && leb c b'Z' || c == b'-'

abbrev pub all_id_bytes : Name → Bool
all_id_bytes [] = true
all_id_bytes (c ∷ s) = is_id_byte c && all_id_bytes s

-- `validateConfigFileID`
unfoldable pub validate_config_file_id : (Name → Bool) → Name → Bool
validate_config_file_id is_local id =
    if name_eq id []
    then false
    else if contains_text (b'/' ∷ []) id
        || contains_text (92 ∷ []) id
        || contains_text (b'.' ∷ b'.' ∷ []) id
    then false
    else if not (is_local id)
    then false
    else all_id_bytes id
