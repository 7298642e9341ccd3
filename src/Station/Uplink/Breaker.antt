-- ===== src/Station/Uplink/Breaker.antt =====
-- The breaker opens at the second failure in a row, closes at a success, and spaces its probes.
use aviationwx_bridge.Prelude.{
  Instant, List, [], arith, false, leb, second, true, ℕ, ◌*◌, ◌+◌, ◌<◌, ◌∷◌, ◌≡◌, ◌≤◌,
}
use aviationwx_bridge.Station.Uplink.{
  WeatherUplink, allow_attempt, new_weather_uplink, note_success, note_transient_failure, probe_due,
  uplink_backoff_cap, uplink_backoff_start, uplink_open_after,
}

pub data Event : Type 0 where
  asks success failure : Instant → Event

pub apply : WeatherUplink → Event → WeatherUplink
apply u (asks now) = (allow_attempt u now).0
apply u (success now) = (note_success u).0
apply u (failure now) = (note_transient_failure u now).0

pub run : WeatherUplink → List Event → WeatherUplink
run u [] = u
run u (e ∷ es) = run (apply u e) es

-- the failures since the last success, counted on top of `n`
abbrev pub streak : ℕ → List Event → ℕ
streak n [] = n
streak n (asks now ∷ es) = streak n es
streak n (success now ∷ es) = streak 0 es
streak n (failure now ∷ es) = streak (n + 1) es

pub record IsSound (u : WeatherUplink) (n : ℕ) : Type 0 where
  pub counted : u.failures ≡ n
  pub opened : u.is_open ≡ leb uplink_open_after n
  pub backoff_at_least : uplink_backoff_start ≤ u.backoff
  pub backoff_at_most : u.backoff ≤ uplink_backoff_cap

ask-IsSound : (u : WeatherUplink) (n now : ℕ) → IsSound u n → IsSound (apply u (asks now)) n
unfolding apply allow_attempt
ask-IsSound u n now h = ground arith

success-IsSound : (u : WeatherUplink) (n now : ℕ) → IsSound u n → IsSound (apply u (success now)) 0
unfolding apply note_success
success-IsSound u n now h = ground arith

failure-IsSound :
    (u : WeatherUplink) (n now : ℕ) → IsSound u n → IsSound (apply u (failure now)) (n + 1)
unfolding apply note_transient_failure
failure-IsSound u n now h = ground arith

run-IsSound_from :
    (u : WeatherUplink) (n : ℕ) (es : List Event) → IsSound u n → IsSound (run u es) (streak n es)
unfolding run
run-IsSound_from u n [] h = h
run-IsSound_from u n (asks now ∷ es) h =
    run-IsSound_from (apply u (asks now)) n es (ask-IsSound u n now h)
run-IsSound_from u n (success now ∷ es) h =
    run-IsSound_from (apply u (success now)) 0 es (success-IsSound u n now h)
run-IsSound_from u n (failure now ∷ es) h =
    run-IsSound_from (apply u (failure now)) (n + 1) es (failure-IsSound u n now h)

-- After any questions, successes and transient failures the breaker is open exactly when two or
-- more failures came since the last success, and its backoff lies between 5 and 60 seconds.
pub run-IsSound : (es : List Event) → IsSound (run new_weather_uplink es) (streak 0 es)
unfolding new_weather_uplink
run-IsSound es = run-IsSound_from new_weather_uplink 0 es (ground arith)

-- While the breaker is open, an attempt that it allows at `now` closes it to every further attempt
-- for at least five seconds; `probe_due` announces exactly what `allow_attempt` grants.
pub allow_attempt_spaced :
    (es : List Event) (now t : Instant)
    → let u = run new_weather_uplink es in
      (probe_due u now ≡ (allow_attempt u now).1)
      × (u.is_open ≡ true
          → (allow_attempt u now).1 ≡ true
          → t < now + 5 * second
          → (allow_attempt (allow_attempt u now).0 t).1 ≡ false)
unfolding allow_attempt probe_due
allow_attempt_spaced es now t = ground (arith, run-IsSound es)
