-- ===== src/Queue/Tracking/FreeName.antt =====
-- The search of `Enqueue` for a file name that is not taken.
use aviationwx_bridge.Prelude.{
  Bool-cases, Instant, [], ap, arith, false, inl, inr, length, none, refl, subst, suc, true, zero,
  ℕ, ◌+◌, ◌<◌, ◌∙◌, ◌∷◌, ◌≡◌, ◌≤◌,
}
use aviationwx_bridge.Queue.Names.{
  Name, digits_value, file_name, millisecond, name_eq, unix_epoch, unix_milli,
}
use aviationwx_bridge.Queue.Names.RoundTrip.{
  digits_value-decimal, name_eq_sound, trim_suffix-file_name,
}
use aviationwx_bridge.Queue.Disk.{Dir, exists, lookup, without}
use aviationwx_bridge.Queue.Disk.Laws.{lookup-without_ne}
use aviationwx_bridge.Queue.Intake.{first_free_time, fresh_time, number_bound, number_of, or_zero}

number_bound_above : (n : Name) (dir : Dir) → number_bound dir ≤ number_of n → lookup n dir ≡ none
number_bound_above n [] h = refl
number_bound_above n (e ∷ dir) h = elim (Bool-cases (name_eq e.name n)) [
  | inl p ↦ absurd (ground (arith, ap number_of (name_eq_sound e.name n p)))
  | inr p ↦ rw p (number_bound_above n dir (ground arith))
]

number_of-file_name : (ms : ℕ) → number_of (file_name ms) ≡ ms
number_of-file_name ms =
    ap (λ s. or_zero (digits_value 0 s)) (trim_suffix-file_name ms)
    ∙ ap or_zero (digits_value-decimal ms)

unix_milli-later :
    (t : Instant) → unix_epoch ≤ t → unix_milli (t + millisecond) ≡ suc (unix_milli t)
unfolding unix_milli
unix_milli-later t h = omega arith

absent-exists : (n : Name) (dir : Dir) → lookup n dir ≡ none → exists n dir ≡ false
absent-exists n dir h = rw h refl

-- a bound of rounds that takes the milliseconds past every name is enough
fresh_time_free :
    (fuel : ℕ) (dir : Dir) (t : Instant)
    → unix_epoch ≤ t
    → number_bound dir ≤ unix_milli t + fuel
    → exists (file_name (unix_milli (fresh_time fuel dir t))) dir ≡ false
unfolding fresh_time
fresh_time_free zero dir t h k =
    let above : number_bound dir ≤ number_of (file_name (unix_milli t)) =
      omega (arith, number_of-file_name (unix_milli t)) in
    absent-exists (file_name (unix_milli t)) dir
      (number_bound_above (file_name (unix_milli t)) dir above)
fresh_time_free (suc fuel) dir t h k = elim (Bool-cases (exists (file_name (unix_milli t)) dir)) [
  | inr e ↦ rw e e
  | inl e ↦ rw e (
      fresh_time_free fuel dir (t + millisecond) (omega arith)
        (omega (arith, unix_milli-later t h)))
]

-- names of different milliseconds differ
file_name_ne : (m n : ℕ) → m < n → name_eq (file_name m) (file_name n) ≡ false
file_name_ne m n h = elim (Bool-cases (name_eq (file_name m) (file_name n))) [
  | inr e ↦ e
  | inl e ↦ absurd (
      omega (
        arith,
        number_of-file_name m,
        number_of-file_name n,
        ap number_of (name_eq_sound (file_name m) (file_name n) e),
      ))
]

-- a search that starts later does not see an earlier name
fresh_time-without :
    (fuel : ℕ) (dir : Dir) (m : ℕ) (t : Instant)
    → unix_epoch ≤ t
    → m < unix_milli t
    → fresh_time fuel (without (file_name m) dir) t ≡ fresh_time fuel dir t
unfolding fresh_time
fresh_time-without zero dir m t h k = refl
fresh_time-without (suc fuel) dir m t h k =
    let ih =
      fresh_time-without fuel dir m (t + millisecond) (omega arith)
        (omega (arith, unix_milli-later t h)) in
    let other =
      lookup-without_ne (file_name m) (file_name (unix_milli t)) dir
        (file_name_ne m (unix_milli t) k) in
    rw (other, ih) refl

pub length-without :
    (n : Name) (dir : Dir)
    → (length (without n dir) ≤ length dir)
      × (exists n dir ≡ true → length (without n dir) < length dir)
length-without n [] = (omega arith, λ h. cc)
length-without n (e ∷ dir) =
    let ih = length-without n dir in
    elim (Bool-cases (name_eq e.name n)) [
      | inl p ↦ rw p (omega (arith, ih.0), λ h. omega (arith, ih.0))
      | inr p ↦ rw p (omega (arith, ih.0), λ h. omega (arith, ih.1 h))
    ]

-- the search goes past as many milliseconds as there are files at most
fresh_time_bounded :
    (fuel : ℕ) (dir : Dir) (t : Instant)
    → unix_epoch ≤ t
    → unix_milli (fresh_time fuel dir t) ≤ unix_milli t + length dir
unfolding fresh_time
fresh_time_bounded zero dir t h = omega arith
fresh_time_bounded (suc fuel) dir t h =
    let taken = file_name (unix_milli t) in
    elim (Bool-cases (exists taken dir)) [
      | inr e ↦ rw e (omega arith)
      | inl e ↦
          let later = unix_milli-later t h in
          let same =
            fresh_time-without fuel dir (unix_milli t) (t + millisecond) (omega arith)
              (omega (arith, later)) in
          let ih = fresh_time_bounded fuel (without taken dir) (t + millisecond) (omega arith) in
          let ih' =
            subst (λ u. unix_milli u ≤ unix_milli (t + millisecond) + length (without taken dir))
              same ih in
          rw e (omega (arith, ih', later, (length-without taken dir).1 e))
    ]

-- From any time since 1970 the search for a free name, where `os.Stat` answers for each name whether it
-- is there, ends: the file that is written next does not
-- stand in the directory, and its milliseconds are past those of the time by at most as many as there
-- are files.
pub first_free_time_free :
    (dir : Dir) (t : Instant)
    → unix_epoch ≤ t
    → (exists (file_name (unix_milli (first_free_time dir t))) dir ≡ false)
      × (unix_milli (first_free_time dir t) ≤ unix_milli t + length dir)
unfolding first_free_time
first_free_time_free dir t h = (
  fresh_time_free (suc (number_bound dir)) dir t h (omega arith),
  fresh_time_bounded (suc (number_bound dir)) dir t h,
)
