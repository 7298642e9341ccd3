-- ===== src/Queue/Names/RoundTrip.antt =====
-- Reading back what was written: decimal digits, suffixes, timestamps.
use aviationwx_bridge.Prelude.{
  Bool-cases, Instant, [], ap, arith, false, inl, inr, length, length-append, ltb, refl, some, suc,
  true, zero, ℕ, ◌%◌, ◌*◌, ◌++◌, ◌+◌, ◌-◌, ◌/◌, ◌<◌, ◌^◌, ◌∙◌, ◌∷◌, ◌≡◌, ◌≤◌,
}
use aviationwx_bridge.Queue.Names.{
  Name, cut_suffix, decimal, decimal_fuel, digits_value, file_name, jpg, millisecond, name_eq,
  parse_int, parse_timestamp, pos, trim_suffix, unix_epoch, unix_milli, unix_milli_time,
}

pub name_eq_refl : (s : Name) → name_eq s s ≡ true
name_eq_refl [] = refl
name_eq_refl (c ∷ s) = ground (arith, name_eq_refl s)

pub name_eq_sound : (s t : Name) → name_eq s t ≡ true → s ≡ t
name_eq_sound [] [] h = refl
name_eq_sound [] (b ∷ bs) h = cc
name_eq_sound (a ∷ s) [] h = cc
name_eq_sound (a ∷ s) (b ∷ t) h = ground (arith, name_eq_sound s t)

pub name_eq_longer : (s t : Name) → length t < length s → name_eq s t ≡ false
name_eq_longer [] t h = elim h [ ]
name_eq_longer (a ∷ s) [] h = refl
name_eq_longer (a ∷ s) (b ∷ t) h = ground (arith, name_eq_longer s t (omega arith))

cut_suffix-append : (s suffix : Name) → cut_suffix suffix (s ++ suffix) ≡ some s
unfolding cut_suffix
cut_suffix-append [] [] = refl
cut_suffix-append [] (c ∷ suffix) = rw (name_eq_refl (c ∷ suffix))
cut_suffix-append (c ∷ s) suffix = rw (
  name_eq_longer (c ∷ (s ++ suffix)) suffix (omega (arith, length-append s suffix)),
  cut_suffix-append s suffix,
)

digits_value-append :
    (acc : ℕ) (s : Name) (d v : ℕ)
    → d < 10
    → digits_value acc s ≡ some v
    → digits_value acc (s ++ ((b'0' + d) ∷ [])) ≡ some (v * 10 + d)
unfolding digits_value
digits_value-append acc [] d v h e = ground arith
digits_value-append acc (c ∷ s) d v h e =
    ground (arith, digits_value-append (acc * 10 + (c - b'0')) s d v h)

digits_value-decimal_fuel : (fuel n : ℕ) → n < fuel → digits_value 0 (decimal_fuel fuel n) ≡ some n
unfolding decimal_fuel
digits_value-decimal_fuel zero n h = elim h [ ]
digits_value-decimal_fuel (suc fuel) n h = elim (Bool-cases (ltb n 10)) [
  | inl e ↦ rw e (unfold digits_value in ground arith)
  | inr e ↦ rw e (
      digits_value-append 0 (decimal_fuel fuel (n / 10)) (n % 10) (n / 10) (omega arith)
        (digits_value-decimal_fuel fuel (n / 10) (ground arith))
      ∙ ap some (omega arith))
]

-- a byte string that begins with no sign
abbrev StartsWithDigit : Name → Type 0
StartsWithDigit [] = ⊥
StartsWithDigit (c ∷ s) = b'0' ≤ c

StartsWithDigit-append : (s t : Name) → StartsWithDigit s → StartsWithDigit (s ++ t)
StartsWithDigit-append [] t h = absurd h
StartsWithDigit-append (c ∷ s) t h = h

decimal_fuel-StartsWithDigit : (fuel n : ℕ) → n < fuel → StartsWithDigit (decimal_fuel fuel n)
unfolding decimal_fuel
decimal_fuel-StartsWithDigit zero n h = elim h [ ]
decimal_fuel-StartsWithDigit (suc fuel) n h = elim (Bool-cases (ltb n 10)) [
  | inl e ↦ rw e (omega arith)
  | inr e ↦ rw e (
      StartsWithDigit-append (decimal_fuel fuel (n / 10)) _
        (decimal_fuel-StartsWithDigit fuel (n / 10) (ground arith)))
]

parse_int_unsigned :
    (s : Name) (v : ℕ)
    → StartsWithDigit s
    → digits_value 0 s ≡ some v
    → v < 2 ^ 63
    → parse_int s ≡ some (pos v)
unfolding parse_int
parse_int_unsigned [] v h e r = absurd h
parse_int_unsigned (c ∷ s) v h e r = ground arith

-- The name of a file gives its number back: the digits before `.jpg` read as the milliseconds.
pub cut_suffix-file_name : (ms : ℕ) → cut_suffix jpg (file_name ms) ≡ some (decimal ms)
unfolding file_name
cut_suffix-file_name ms = cut_suffix-append (decimal ms) jpg

pub digits_value-decimal : (ms : ℕ) → digits_value 0 (decimal ms) ≡ some ms
unfolding decimal
digits_value-decimal ms = digits_value-decimal_fuel (suc ms) ms (omega arith)

pub parse_int-decimal : (ms : ℕ) → ms < 2 ^ 63 → parse_int (decimal ms) ≡ some (pos ms)
parse_int-decimal ms h =
    parse_int_unsigned (decimal ms) ms
      (unfold decimal in decimal_fuel-StartsWithDigit (suc ms) ms (omega arith))
      (digits_value-decimal ms) h

pub trim_suffix-file_name : (ms : ℕ) → trim_suffix jpg (file_name ms) ≡ decimal ms
unfolding trim_suffix
trim_suffix-file_name ms = rw (cut_suffix-file_name ms, trim_suffix)

-- A timestamp from 1970 on whose milliseconds fit in an int64, written as a file name and parsed
-- back, is the timestamp rounded down to the millisecond.
pub parse_timestamp-file_name :
    (t : Instant)
    → unix_epoch ≤ t
    → unix_milli t < 2 ^ 63
    → (parse_timestamp (file_name (unix_milli t)) ≤ t)
      × (t < parse_timestamp (file_name (unix_milli t)) + millisecond)
unfolding parse_timestamp
parse_timestamp-file_name t h r =
    rw (trim_suffix-file_name (unix_milli t), parse_int-decimal (unix_milli t) r, parse_timestamp)
      (unfold unix_milli unix_milli_time in (omega arith, omega arith))
