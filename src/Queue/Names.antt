-- ===== src/Queue/Names.antt =====
-- File names of queued images, internal/queue/queue.go: `fmt.Sprintf("%d.jpg", ms)` and back by
-- `strings.TrimSuffix` and `strconv.ParseInt`. A name is the list of its bytes.
pub mod RoundTrip
pub mod Table
use aviationwx_bridge.Prelude.{
  Bool, Duration, Instant, List, Option, [], false, if◌then◌else◌, leb, ltb, none, second, some,
  suc, true, zero, zero_time, ℕ, ◌%◌, ◌&&◌, ◌*◌, ◌++◌, ◌+◌, ◌-◌, ◌/◌, ◌==◌, ◌^◌, ◌∷◌,
}

abbrev pub Name : Type 0
Name = List ℕ

abbrev pub name_eq : Name → Name → Bool
name_eq [] [] = true
name_eq [] (b ∷ bs) = false
name_eq (a ∷ as') [] = false
name_eq (a ∷ as') (b ∷ bs) = a == b && name_eq as' bs

-- Go's `<` on strings
abbrev pub name_lt : Name → Name → Bool
name_lt as' [] = false
name_lt [] (b ∷ bs) = true
name_lt (a ∷ as') (b ∷ bs) = if a == b then name_lt as' bs else ltb a b

-- ".jpg" and ".tmp"
abbrev pub jpg : Name
jpg = b'.' ∷ b'j' ∷ b'p' ∷ b'g' ∷ []

abbrev pub tmp : Name
tmp = b'.' ∷ b't' ∷ b'm' ∷ b'p' ∷ []

-- the part of the name before the suffix, if it ends in the suffix
unfoldable pub cut_suffix : Name → Name → Option Name
cut_suffix suffix [] = if name_eq [] suffix then some [] else none
cut_suffix suffix (c ∷ s) =
    let rest = cut_suffix suffix s in
    if name_eq (c ∷ s) suffix
    then some []
    else elim rest [ none ↦ none | some base ↦ some (c ∷ base) ]

abbrev pub is_some {ℓ} : {A : Type ℓ} → Option A → Bool
is_some none = false
is_some (some a) = true

-- strings.HasSuffix, strings.TrimSuffix
unfoldable pub has_suffix : Name → Name → Bool
has_suffix suffix s = is_some (cut_suffix suffix s)

unfoldable pub trim_suffix : Name → Name → Name
trim_suffix suffix s = elim (cut_suffix suffix s) [ none ↦ s | some base ↦ base ]

-- the decimal digits of a number, most significant first
unfoldable pub decimal_fuel : ℕ → ℕ → Name
decimal_fuel zero n = []
decimal_fuel (suc fuel) n =
    let rest = decimal_fuel fuel (n / 10) in
    if ltb n 10 then (b'0' + n) ∷ [] else rest ++ ((b'0' + n % 10) ∷ [])

-- every division by ten makes the number smaller, so `n + 1` rounds are enough
unfoldable pub decimal : ℕ → Name
unfolding decimal_fuel
decimal n = decimal_fuel (suc n) n

unfoldable pub file_name : ℕ → Name
unfolding decimal
file_name ms = decimal ms ++ jpg

unfoldable pub digits_value : ℕ → Name → Option ℕ
digits_value acc [] = some acc
digits_value acc (c ∷ s) =
    if leb b'0' c && leb c b'9' then digits_value (acc * 10 + (c - b'0')) s else none

-- An `int64` that is not negative, or its distance below 0.
pub data Int64 : Type 0 where
  pos : ℕ → Int64
  neg : ℕ → Int64

in_range : Bool → Option ℕ → Option Int64
in_range negative none = none
in_range true (some v) = if leb v (2 ^ 63) then some (neg v) else none
in_range false (some v) = if ltb v (2 ^ 63) then some (pos v) else none

unsigned : Name → Option ℕ
unfolding digits_value
unsigned [] = none
unsigned (c ∷ s) = digits_value 0 (c ∷ s)

-- `strconv.ParseInt(s, 10, 64)`; `none` is an error
unfoldable pub parse_int : Name → Option Int64
unfolding in_range unsigned
parse_int [] = none
parse_int (c ∷ s) =
    if c == b'-'
    then in_range true (unsigned s)
    else if c == b'+'
    then in_range false (unsigned s)
    else in_range false (unsigned (c ∷ s))

-- 1 January 1970 as an instant
abbrev pub unix_epoch : Instant
unix_epoch = 62135596800 * second

abbrev pub millisecond : Duration
millisecond = 10 ^ 6

-- `time.UnixMilli`; an instant before the year 1 is 0
unfoldable pub unix_milli_time : Int64 → Instant
unix_milli_time (pos ms) = unix_epoch + ms * millisecond
unix_milli_time (neg ms) = unix_epoch - ms * millisecond

-- `t.UnixMilli()` of an instant from 1970 on
unfoldable pub unix_milli : Instant → ℕ
unix_milli t = (t - unix_epoch) / millisecond

-- `parseTimestampFromFilename`
unfoldable pub parse_timestamp : Name → Instant
parse_timestamp name = elim (parse_int (trim_suffix jpg name)) [
  | none ↦ zero_time
  | some ms ↦ unix_milli_time ms
]
