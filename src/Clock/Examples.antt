-- ===== src/Clock/Examples.antt =====
-- The theorems about the clock at concrete inputs.
use aviationwx_bridge.Prelude.{
  Instant, [], arith, false, none, refl, second, some, true, ◌*◌, ◌+◌, ◌∷◌, ◌≡◌,
}
use aviationwx_bridge.Queue.Names.{neg}
use aviationwx_bridge.Clock.{sub}
use aviationwx_bridge.Clock.Health.{check, new_time_health, note_answer, note_silence}
use aviationwx_bridge.Clock.Authority.{
  bridge_clock, default_authority_config, determine_observation_time, low,
}
use aviationwx_bridge.Clock.Sync.{Check, last_sync, run, run_healthy, within}
use aviationwx_bridge.Clock.Choice.{IsJustified, determine_observation_time-IsJustified}

-- an answer within bounds, and then silence an hour later
abbrev first_check : Check
first_check = (1000 * second, none ∷ some (neg 20) ∷ [])

abbrev silent_check : Check
silent_check = (4600 * second, none ∷ none ∷ [])

run_healthy_example :
    let th = new_time_health 0 0 in
    (run th (silent_check ∷ first_check ∷ [])).healthy
    ≡ within th (4600 * second) (last_sync th (silent_check ∷ first_check ∷ []))
run_healthy_example =
    run_healthy 0 0 silent_check (first_check ∷ []) (omega arith, (omega arith, tt))

healthy_an_hour_later : (run (new_time_health 0 0) (silent_check ∷ first_check ∷ [])).healthy ≡ true
unfolding run check note_answer note_silence new_time_health sub
healthy_an_hour_later = refl

abbrev in_zone : Instant → Instant
in_zone t = t + 8 * 3600 * second

abbrev captured : Instant
captured = 30000 * second

determine_observation_time-IsJustified_example :
    let r =
      determine_observation_time in_zone default_authority_config
        (some true)
        captured
        (some (1190 * second)) in
    IsJustified default_authority_config captured r.source r.time
    × (some true ≡ some false → (r.source ≡ bridge_clock) × (r.confidence ≡ low))
unfolding default_authority_config
determine_observation_time-IsJustified_example =
    determine_observation_time-IsJustified in_zone default_authority_config (some true) captured
      (1190 * second) (omega arith) (omega arith) (omega arith)
