-- ===== src/Station/Delivery.antt =====
-- The delivery of weather posts in internal/station/manager.go: `postObservation`, `flushRing`,
-- `handleWeatherPostErr`, `noteWeatherPostOK` and the healing of stale reasons after a drain.
-- `postMu` serialises these, so each is one function on the state. Every call of the clock and of
-- `PostWeather` takes its answer from an argument, and `sent` records the posts that were made.
pub mod Loss
pub mod Live
use text.Mathlib.Text.{◌==◌ as str_eq}
use aviationwx_bridge.Prelude.{
  Bool, Instant, List, Option, String, [], false, if◌then◌else◌, none, not, some, suc, true, ℕ,
  ◌++◌, ◌==◌, ◌∷◌,
}
use aviationwx_bridge.Station.Ring.{
  Attempts, OutboundRing, WeatherRequest, global_min_poll_interval, pop_ready, push, push_front,
}
use aviationwx_bridge.Station.Uplink.{
  WeatherErr, WeatherUplink, allow_attempt, is_permanent_weather_err, note_success,
  note_transient_failure, probe_due,
}

-- `LastPostError`: cleared, the breaker's message, or the text of an error.
pub data PostReason : Type 0 where
  queued_message : PostReason
  failed : WeatherErr → PostReason

pub record PostStatus : Type 0 where
  pub last_post_at : Instant
  pub last_post_error : Option PostReason

pub record Manager : Type 0 where
  pub ring : OutboundRing
  pub uplink : WeatherUplink
  pub last_catchup_post : Attempts
  pub status : String → PostStatus
  pub sent : List (WeatherRequest × Option WeatherErr)

unfoldable pub update {ℓ} : {A : Type ℓ} → (String → A) → String → A → String → A
update f k a j = if str_eq k j then a else f j

unfoldable pub note_weather_post_ok : Manager → String → Instant → Manager
note_weather_post_ok m id now = record m {
  uplink = (note_success m.uplink).0;
  status = update m.status id (record { last_post_at = now; last_post_error = none });
}

unfoldable pub set_reason : Manager → String → PostReason → Manager
set_reason m id reason = record m {
  status = update m.status id (record (m.status id) { last_post_error = some reason });
}

unfoldable pub handle_weather_post_err :
    Manager → String → WeatherRequest → WeatherErr → Bool → Instant → Manager
handle_weather_post_err m id req err queue now =
    if is_permanent_weather_err (some err)
    then set_reason m id (failed err)
    else if err.canceled
    then m
    else let noted = record m { uplink = (note_transient_failure m.uplink now).0 } in
      let queued = if queue then record noted { ring = push noted.ring req now } else noted in
      set_reason queued id (failed err)

-- One round of the flush: when the breaker is asked, what the post returns, and when it returns.
pub record Attempt : Type 0 where
  pub asked : Instant
  pub result : Option WeatherErr
  pub done : Instant

-- the call of `PostWeather` and the stamp after it
unfoldable pub post : Manager → WeatherRequest → Option WeatherErr → Instant → Manager
post m req result done = record m {
  sent = m.sent ++ ((req, result) ∷ []);
  last_catchup_post = update m.last_catchup_post req.source_id (some done);
}

unfoldable pub restore : Manager → List WeatherRequest → Instant → Manager
restore m reqs now = record m { ring = push_front m.ring reqs now }

-- the branches after a post of the flush; `continue` is the rest of the loop
unfoldable pub after_post :
    (Manager → Manager)
    → Manager
    → WeatherRequest
    → List WeatherRequest
    → Option WeatherErr
    → Instant
    → Manager
after_post continue m req rest none done = continue (note_weather_post_ok m req.source_id done)
after_post continue m req rest (some err) done =
    let noted = handle_weather_post_err m req.source_id req err false done in
    if err.canceled
    then restore m (req ∷ rest) done
    else if is_permanent_weather_err (some err)
    then continue noted
    else restore noted (req ∷ rest) done

-- the loop of `flushRing` from index `i`
unfoldable pub flush_loop : (ℕ → Attempt) → ℕ → List WeatherRequest → Manager → Manager
flush_loop env i [] m = m
flush_loop env i (req ∷ rest) m =
    let a = env i in
    let ask = if i == 0 then (m.uplink, true) else allow_attempt m.uplink a.asked in
    let m' = record m { uplink = ask.0 } in
    if not ask.1
    then restore m' (req ∷ rest) a.asked
    else after_post (flush_loop env (suc i) rest) (post m' req a.result a.done) req rest a.result
        a.done

-- what is done with the requests that `PopReady` took
unfoldable pub flush_ready : (ℕ → Attempt) → Instant → List WeatherRequest → Manager → Manager
flush_ready env now [] m = m
flush_ready env now (req ∷ rest) m =
    let ask = allow_attempt m.uplink now in
    let m' = record m { uplink = ask.0 } in
    if not ask.1 then restore m' (req ∷ rest) now else flush_loop env 0 (req ∷ rest) m'

unfoldable pub flush_ring : Bool → (ℕ → Attempt) → Instant → Manager → Manager
flush_ring configured env now m =
    if not configured
    then m
    else if not (probe_due m.uplink now)
    then m
    else let popped = pop_ready m.ring m.last_catchup_post now global_min_poll_interval in
      flush_ready env now popped.1 (record m { ring = popped.0 })

pub data Outcome : Type 0 where
  posted : Outcome
  unreachable : Outcome
  rejected : WeatherErr → Outcome

-- the live post, by its result
unfoldable pub after_live :
    Manager → String → WeatherRequest → Option WeatherErr → Instant → Manager × Outcome
after_live m id req none done = (note_weather_post_ok m id done, posted)
after_live m id req (some err) done =
    if err.canceled
    then (m, rejected err)
    else (handle_weather_post_err m id req err true done, rejected err)

-- `postObservation` on the request of one observation; `live` is the attempt of the live post
unfoldable pub post_observation :
    Bool → (ℕ → Attempt) → Instant → Attempt → String → WeatherRequest → Manager → Manager × Outcome
post_observation configured env now live id req m =
    if not configured
    then (m, posted)
    else let m1 = flush_ring configured env now m in
      let ask = allow_attempt m1.uplink live.asked in
      let m2 = record m1 { uplink = ask.0 } in
      if not ask.1
      then (
        set_reason (record m2 { ring = push m2.ring req live.asked }) id queued_message,
        unreachable,
      )
      else after_live (record m2 { sent = m2.sent ++ ((req, live.result) ∷ []) }) id req live.result
          live.done
