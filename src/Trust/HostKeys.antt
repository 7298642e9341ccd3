-- ===== src/Trust/HostKeys.antt =====
-- internal/upload/hostkey.go: the file of known hosts, which pins the key of a server at the first
-- connection, and the check of a key that a server shows. A key is its bytes, `fingerprint` is
-- `ssh.FingerprintSHA256`. The lock is free while the roster is fetched, so that the file may be another
-- one afterwards. The last line of the file ends in a newline, as the program writes it. A label is one
-- field and one name: a host has no space and no comma. A server always shows a key.
pub mod Pinning
use aviationwx_bridge.Prelude.{
  Bool, List, Option, [], false, if◌then◌else◌, none, not, some, true, ℕ, ◌&&◌, ◌++◌, ◌==◌, ◌||◌,
  ◌∷◌,
}
use aviationwx_bridge.Queue.Names.{Name, decimal, name_eq}
use aviationwx_bridge.Config.Upload.{trim_space}

abbrev pub Key : Type 0
Key = Name

-- a line of the file: one that is empty or a comment, or one with the names of its first field, whether
-- it has three fields, and the key that they hold
pub data KnownLine : Type 0 where
  remark : KnownLine
  known : List Name → Bool → Option Key → KnownLine

pub data Lookup : Type 0 where
  missing unparsable : Lookup
  pinned : Key → Lookup

-- `hostFieldMatches`
abbrev pub host_field_matches : List Name → Name → Bool
host_field_matches [] label = false
host_field_matches (part ∷ parts) label =
    name_eq (trim_space part) label || host_field_matches parts label

abbrev pub parsed_key : Option Key → Lookup
parsed_key none = unparsable
parsed_key (some key) = pinned key

-- `lookup` on the lines
unfoldable pub lookup_lines : Name → List KnownLine → Lookup
lookup_lines label [] = missing
lookup_lines label (remark ∷ lines) = lookup_lines label lines
lookup_lines label (known parts false key ∷ lines) = lookup_lines label lines
lookup_lines label (known parts true key ∷ lines) =
    let rest = lookup_lines label lines in
    if host_field_matches parts label then parsed_key key else rest

-- `formatKnownHostsLine`
abbrev pub known_line : Name → Key → KnownLine
known_line label key = known (label ∷ []) true (some key)

-- the lines that `replace` keeps
unfoldable pub other_lines : Name → List KnownLine → List KnownLine
other_lines label [] = []
other_lines label (remark ∷ lines) = remark ∷ other_lines label lines
other_lines label (known parts b key ∷ lines) =
    let rest = other_lines label lines in
    if host_field_matches parts label then rest else known parts b key ∷ rest

-- `knownHostLabel`, where a port that is not positive is 0
unfoldable pub known_host_label : Name → ℕ → Name
known_host_label host0 port =
    let host = trim_space host0 in
    if name_eq host []
    then []
    else if port == 0 || port == 22
    then host
    else (b'[' ∷ []) ++ (host ++ (b']' ∷ b':' ∷ decimal port))

-- `isFingerprintInTrustedList`
abbrev pub in_trusted : Name → List Name → Bool
in_trusted fp [] = false
in_trusted fp (t ∷ ts) = name_eq (trim_space t) (trim_space fp) || in_trusted fp ts

abbrev pub is_empty : List Name → Bool
is_empty [] = true
is_empty (t ∷ ts) = false

-- what an append does to the file: the whole line is written, the file is not opened, or the write ends
-- early and leaves a part of the line, which counts as a line of its own
pub data Append : Type 0 where
  whole not_opened : Append
  cut : KnownLine → Append

-- what the check meets: whether the file can be read, the roster before and after it is fetched, whether
-- the fetch succeeds, the file after it, what an append does, and whether the file can be replaced
pub record VerifyEnv : Type 0 where
  pub readable : Bool
  pub roster : List Name
  pub fetched : Bool
  pub roster_after : List Name
  pub lines_after : List KnownLine
  pub readable_after : Bool
  pub append : Append
  pub write_ok : Bool

pub data Verdict : Type 0 where
  accepted no_label not_in_roster mismatch file_error : Verdict

abbrev pub Outcome : Type 0
Outcome = List KnownLine × Verdict

-- `lookup`, with a file that cannot be read
abbrev pub lookup : Bool → Name → List KnownLine → Lookup
lookup true label lines = lookup_lines label lines
lookup false label lines = unparsable

-- `append`
abbrev pub append_key : Append → Name → Key → List KnownLine → Outcome
append_key whole label key lines = (lines ++ (known_line label key ∷ []), accepted)
append_key not_opened label key lines = (lines, file_error)
append_key (cut part) label key lines = (lines ++ (part ∷ []), file_error)

-- `replace`
abbrev pub replace_key : Bool → Name → Key → List KnownLine → Outcome
replace_key true label key lines =
    (other_lines label lines ++ (known_line label key ∷ []), accepted)
replace_key false label key lines = (lines, file_error)

-- the second look at the file, for a host that was not there at the first
abbrev pub pin_first : VerifyEnv → Name → Key → List KnownLine → Lookup → Outcome
pin_first env label key lines missing = append_key env.append label key lines
pin_first env label key lines unparsable = (lines, file_error)
pin_first env label key lines (pinned stored) =
    if name_eq stored key then (lines, accepted) else (lines, mismatch)

abbrev pub check_roster :
    VerifyEnv → Name → Name → Key → List Name → Bool → List KnownLine → Outcome
check_roster env fp label key roster readable lines =
    let pin = pin_first env label key lines (lookup readable label lines) in
    if not (is_empty roster) && not (in_trusted fp roster) then (lines, not_in_roster) else pin

-- the key of a host that is not in the file
abbrev pub verify_new : VerifyEnv → Name → Name → Key → List KnownLine → Outcome
verify_new env fp label key lines =
    let known_roster = check_roster env fp label key env.roster env.readable_after lines in
    let fetched_roster =
      check_roster env fp label key env.roster_after env.readable_after env.lines_after in
    if in_trusted fp env.roster then known_roster else fetched_roster

-- a key that is not the one in the file
abbrev pub verify_changed : VerifyEnv → Name → Name → Key → List KnownLine → Outcome
verify_changed env fp label key lines =
    let replaced = replace_key env.write_ok label key lines in
    let replaced_after = replace_key env.write_ok label key env.lines_after in
    if in_trusted fp env.roster
    then replaced
    else if env.fetched && in_trusted fp env.roster_after
    then replaced_after
    else (env.lines_after, mismatch)

abbrev pub verify_found : VerifyEnv → Name → Name → Key → List KnownLine → Lookup → Outcome
verify_found env fp label key lines missing = verify_new env fp label key lines
verify_found env fp label key lines unparsable = (lines, file_error)
verify_found env fp label key lines (pinned stored) =
    let changed = verify_changed env fp label key lines in
    if name_eq stored key then (lines, accepted) else changed

-- `verify`
unfoldable pub verify : (Key → Name) → VerifyEnv → Name → Key → List KnownLine → Outcome
verify fingerprint env label key lines =
    let found =
      verify_found env (fingerprint key) label key lines (lookup env.readable label lines) in
    if name_eq label [] then (lines, no_label) else found
