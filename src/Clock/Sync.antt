-- ===== src/Clock/Sync.antt =====
-- When the clock counts as healthy, over any sequence of checks.
use aviationwx_bridge.Prelude.{
  All, Bool, Bool-cases, Instant, List, Option, Option-cases, [], arith, false, if◌then◌else◌, inl,
  inr, is_zero, none, refl, some, sym, true, zero_time, ℕ, ◌<◌, ◌==◌, ◌∷◌, ◌≡◌,
}
use aviationwx_bridge.Queue.Names.{Int64}
use aviationwx_bridge.Clock.{at_most, sub}
use aviationwx_bridge.Clock.Health.{
  TimeHealth, check, first_answer, in_bounds, new_time_health, note_answer, note_silence,
}

abbrev pub Check : Type 0
Check = Instant × List (Option Int64)

-- checks, the last one first
unfoldable pub run : TimeHealth → List Check → TimeHealth
run th [] = th
run th (c ∷ earlier) = check c.0 c.1 (run th earlier)

sync_step : TimeHealth → Instant → Option Int64 → Option Instant → Option Instant
sync_step th now none before_it = before_it
sync_step th now (some offset) before_it = if in_bounds th offset then some now else none

-- The time of the last answer, if that answer was within bounds.
unfoldable pub last_sync : TimeHealth → List Check → Option Instant
unfolding sync_step
last_sync th [] = none
last_sync th (c ∷ earlier) = sync_step th c.0 (first_answer c.1) (last_sync th earlier)

-- the stored time: zero for none
abbrev pub stored : Option Instant → Instant
stored none = zero_time
stored (some t) = t

-- times of checks are after the zero time
abbrev pub AreTimes : List Check → Type 0
AreTimes checks = All (λ (c : Check). 0 < c.0) checks

run_config :
    (th : TimeHealth) (checks : List Check)
    → ((run th checks).max_offset ≡ th.max_offset)
      × ((run th checks).stale_max_age ≡ th.stale_max_age)
unfolding run check note_answer note_silence
run_config th [] = (refl, refl)
run_config th (c ∷ earlier) =
    let ih = run_config th earlier in
    elim (Option-cases (first_answer c.1)) [
      | inl e ↦ rw (e, check) ih
      | inr (o, e) ↦ rw (e, check) ih
    ]

-- a stored time that is not zero is that of a check
IsStored : Option Instant → Type 0
IsStored none = Unit
IsStored (some t) = 0 < t

last_good_sync-stored :
    (th : TimeHealth) (checks : List Check)
    → th.last_good_sync ≡ zero_time
    → AreTimes checks
    → ((run th checks).last_good_sync ≡ stored (last_sync th checks))
      × IsStored (last_sync th checks)
unfolding run check note_answer note_silence last_sync sync_step IsStored
last_good_sync-stored th [] z h = (z, tt)
last_good_sync-stored th (c ∷ earlier) z h =
    let ih = last_good_sync-stored th earlier z h.1 in
    let config = run_config th earlier in
    elim (Option-cases (first_answer c.1)) [
      | inl e ↦ rw (e, check, sync_step) ih
      | inr (o, e) ↦ elim (Bool-cases (in_bounds th o)) [
        | inl b ↦ rw (e, check, sync_step, config.0, b) (refl, h.0)
        | inr b ↦ rw (e, check, sync_step, config.0, b) (refl, tt)
      ]
    ]

-- healthy at a time by the last good answer
abbrev pub within : TimeHealth → Instant → Option Instant → Bool
within th now none = false
within th now (some t) = at_most (sub now t) th.stale_max_age

silent_within :
    (th : TimeHealth) (now : Instant) (o : Option Instant)
    → IsStored o
    → (if is_zero (stored o) then false else at_most (sub now (stored o)) th.stale_max_age)
      ≡ within th now o
unfolding IsStored
silent_within th now none h = refl
silent_within th now (some t) h = let not_zero : (t == 0) ≡ false = ground arith in rw not_zero refl

sub_self : (th : TimeHealth) (now : Instant) → at_most (sub now now) th.stale_max_age ≡ true
unfolding sub
sub_self th now = ground arith

-- After any checks of a new clock at times past the zero time, the clock is healthy exactly if the
-- last server that answered did so within bounds, and no longer ago, at the last check, than the
-- stale age.
pub run_healthy :
    (max_offset_seconds stale_hours : ℕ) (last : Check) (earlier : List Check)
    → AreTimes (last ∷ earlier)
    → let th = new_time_health max_offset_seconds stale_hours in
      (run th (last ∷ earlier)).healthy ≡ within th last.0 (last_sync th (last ∷ earlier))
unfolding run check note_answer note_silence last_sync sync_step
run_healthy m s c earlier h =
    let th = new_time_health m s in
    let facts = last_good_sync-stored th earlier (unfold new_time_health in refl) h.1 in
    let config = run_config th earlier in
    elim (Option-cases (first_answer c.1)) [
      | inl e ↦
          rw (e, check, sync_step, facts.0, config.1)
            (silent_within th c.0 (last_sync th earlier) facts.1)
      | inr (o, e) ↦ elim (Bool-cases (in_bounds th o)) [
        | inl b ↦ rw (e, check, sync_step, config.0, b) (sym (sub_self th c.0))
        | inr b ↦ rw (e, check, sync_step, config.0, b) refl
      ]
    ]
