-- ===== src/Release/Checker.antt =====
-- internal/update/checker.go: the comparison of versions and what a check keeps. The numbers of a
-- version are 64-bit ones and wrap around.
pub mod Order
use aviationwx_bridge.Prelude.{
  Bool, Instant, [], false, if◌then◌else◌, leb, ltb, not, suc, true, zero, zero_time, ℕ, ◌%◌, ◌&&◌,
  ◌*◌, ◌+◌, ◌-◌, ◌==◌, ◌||◌, ◌∷◌,
}
use aviationwx_bridge.Queue.Names.{Name, name_eq}

pub record Version : Type 0 where
  pub major : ℕ
  pub minor : ℕ
  pub patch : ℕ

-- a 64-bit number, as its bits
abbrev wrap : ℕ → ℕ
wrap n = n % 18446744073709551616

-- the bits of a signed number, shifted so that their order is that of the numbers
unfoldable pub shifted : ℕ → ℕ
shifted n = (n + 9223372036854775808) % 18446744073709551616

-- parts[idx] = current
abbrev pub set_part : ℕ → ℕ → Version → Version
set_part zero n v = record v { major = n }
set_part (suc zero) n v = record v { minor = n }
set_part (suc (suc i)) n v = record v { patch = n }

-- the loop of `parseVersion`, with the number in hand and how many parts are read
unfoldable pub parse_loop : ℕ → ℕ → Version → Name → Version
parse_loop current idx v [] = if ltb idx 3 then set_part idx current v else v
parse_loop current idx v (c ∷ s) =
    let digit = parse_loop (wrap (current * 10 + (c - b'0'))) idx v s in
    let dot = parse_loop 0 (idx + 1) (set_part idx current v) s in
    let other = parse_loop current idx v s in
    if not (ltb idx 3)
    then v
    else if leb b'0' c && leb c b'9'
    then digit
    else if c == b'.'
    then dot
    else other

unfoldable pub parse_version : Name → Version
parse_version s = parse_loop 0 0 (record { major = 0; minor = 0; patch = 0 }) s

pub data Comparison : Type 0 where
  newer same older : Comparison

-- one round of the loop of `compareVersions`
abbrev pub compare_part : ℕ → ℕ → Comparison → Comparison
compare_part a b rest =
    if ltb (shifted b) (shifted a)
    then newer
    else if ltb (shifted a) (shifted b)
    then older
    else rest

unfoldable pub compare_parts : Version → Version → Comparison
compare_parts a b =
    compare_part a.major b.major (compare_part a.minor b.minor (compare_part a.patch b.patch same))

-- `compareVersions`
unfoldable pub compare_versions : Name → Name → Comparison
compare_versions v1 v2 = compare_parts (parse_version v1) (parse_version v2)

abbrev pub is_newer : Comparison → Bool
is_newer newer = true
is_newer same = false
is_newer older = false

-- "dev"
abbrev pub dev : Name
dev = b'd' ∷ b'e' ∷ b'v' ∷ []

abbrev pub strip_v : Name → Name
strip_v [] = []
strip_v (c ∷ s) = if c == b'v' then s else c ∷ s

-- `isNewerVersion`, by the current version and the tag
unfoldable pub is_newer_version : Name → Name → Bool
is_newer_version current tag =
    if name_eq current dev || name_eq current []
    then false
    else if name_eq (strip_v current) (strip_v tag)
    then false
    else is_newer (compare_versions (strip_v tag) (strip_v current))

pub record Checker : Type 0 where
  pub current_version : Name
  pub latest_version : Name
  pub latest_url : Name
  pub update_avail : Bool
  pub last_check : Instant
  pub failed : Bool

-- `NewChecker`
unfoldable pub new_checker : Name → Checker
new_checker current = record {
  current_version = current;
  latest_version = [];
  latest_url = [];
  update_avail = false;
  last_check = zero_time;
  failed = false;
}

-- what the server answers: an error, no release, or a release with its tag and page
pub data Answer : Type 0 where
  no_answer not_found : Answer
  release : Name → Name → Answer

-- `setError`
unfoldable pub set_error : Instant → Checker → Checker
set_error now c = record c { failed = true; last_check = now }

-- `setResult`
unfoldable pub set_result : Instant → Name → Name → Bool → Checker → Checker
set_result now version url avail c = record c {
  latest_version = version;
  latest_url = url;
  update_avail = avail;
  last_check = now;
  failed = false;
}

-- `checkNow`
unfoldable pub check_now : Instant → Answer → Checker → Checker
check_now now no_answer c = set_error now c
check_now now not_found c = set_result now [] [] false c
check_now now (release tag url) c =
    set_result now tag url (is_newer_version c.current_version tag) c
