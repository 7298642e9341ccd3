-- ===== src/Station/Polling.antt =====
-- The poll workers of internal/station/manager.go: the poll of a station with its post. `text` is the id
-- of a station as the delivery knows it. A payload is one opaque value, and `shorten` is what
-- `truncateRawForConsole` makes of it. The delivery posts for stations that have a status.
use aviationwx_bridge.Prelude.{
  Bool, Duration, Instant, List, Option, String, [], false, if◌then◌else◌, is_zero, leb, ltb, none,
  second, some, suc, true, zero, zero_time, ℕ, ◌%◌, ◌&&◌, ◌*◌, ◌||◌, ◌∷◌,
}
use aviationwx_bridge.Queue.Names.{Int64, Name, name_eq, neg, pos}
use aviationwx_bridge.Queue.Names.Table.{Table}
use aviationwx_bridge.Config.Values.{Station}
use aviationwx_bridge.Config.Station.{davis, ecowitt, poll_floor}
use aviationwx_bridge.Station.Ring.{WeatherRequest, global_min_poll_interval}
use aviationwx_bridge.Station.Delivery.{
  Attempt, Manager, Outcome, post_observation, rejected, unreachable,
}
use aviationwx_bridge.Station.Status.{
  Observation, PayloadLogEntry, StationStatus, is_none, note_lan_poll_outcome, note_payload,
  set_status,
}

-- the part of `Manager` that the polls change; a worker is the settings that it polls by
pub record Polling : Type 0 where
  pub delivery : Manager
  pub workers : Table Station
  pub status : Table StationStatus
  pub recent_payloads : List PayloadLogEntry
  pub lan_fail_log_at : Table Instant

unfoldable pub weather_request_from_obs : Observation → WeatherRequest
weather_request_from_obs obs = record {
  observed_at = obs.observed_at;
  source_id = obs.source_id;
  provider = obs.provider;
  provider_meta = obs.provider_meta;
}

-- the seconds between two polls, by default ten
abbrev pub poll_seconds : Int64 → ℕ
poll_seconds (pos zero) = poll_floor
poll_seconds (pos (suc n)) = suc n
poll_seconds (neg n) = poll_floor

-- `time.Duration(sec) * time.Second`, which wraps around; a negative duration counts as 0, since it is
-- only compared with a floor
unfoldable pub seconds_duration : ℕ → Duration
seconds_duration sec =
    let d = (sec * second) % 18446744073709551616 in if leb 9223372036854775808 d then 0 else d

abbrev pub at_least : Duration → Duration → Duration
at_least floor d = if ltb d floor then floor else d

-- `pollInterval`; both floors are ten seconds
unfoldable pub poll_interval : Station → Duration
poll_interval st =
    let d = seconds_duration (poll_seconds st.poll_interval_seconds) in
    let floored =
      if name_eq st.type davis || name_eq st.type ecowitt
      then at_least (poll_floor * second) d
      else d in
    at_least global_min_poll_interval floored

-- what a poll returns: an error with or without an observation, or an observation; `raw` is the payload
-- of the observation, if it has one
pub data PollAnswer : Type 0 where
  poll_failed : Name → PollAnswer
  partly_polled : Name → Observation → Option ℕ → PollAnswer
  polled : Observation → Option ℕ → PollAnswer

-- what a poll meets: the clock, whether the API is configured, and the answers of the posts
pub record TickEnv : Type 0 where
  pub now : Instant
  pub configured : Bool
  pub flush : ℕ → Attempt
  pub flush_now : Instant
  pub live : Attempt

-- "missing observation timestamp (station ts); skipped weather POST"
abbrev pub missing_timestamp : Name
missing_timestamp =
    b'm' ∷ b'i' ∷ b's' ∷ b's' ∷ b'i' ∷ b'n' ∷ b'g' ∷ 32 ∷ b'o' ∷ b'b' ∷ b's' ∷ b'e' ∷ b'r' ∷ b'v'
    ∷ b'a' ∷ b't' ∷ b'i' ∷ b'o' ∷ b'n' ∷ 32 ∷ b't' ∷ b'i' ∷ b'm' ∷ b'e' ∷ b's' ∷ b't' ∷ b'a' ∷ b'm'
    ∷ b'p' ∷ 32 ∷ b'(' ∷ b's' ∷ b't' ∷ b'a' ∷ b't' ∷ b'i' ∷ b'o' ∷ b'n' ∷ 32 ∷ b't' ∷ b's' ∷ b')'
    ∷ b';' ∷ 32 ∷ b's' ∷ b'k' ∷ b'i' ∷ b'p' ∷ b'p' ∷ b'e' ∷ b'd' ∷ 32 ∷ b'w' ∷ b'e' ∷ b'a' ∷ b't'
    ∷ b'h' ∷ b'e' ∷ b'r' ∷ 32 ∷ b'P' ∷ b'O' ∷ b'S' ∷ b'T' ∷ []

module _ (text : Name → String) (shorten : ℕ → Option ℕ) where
  -- the branch of `tick` for an error
  unfoldable pub tick_failed :
      TickEnv → Station → Name → Bool → Instant → Option ℕ → Polling → Polling
  tick_failed env st err lan_ok observed raw p = record p {
    status =
        set_status st.id
          (λ s. record s {
            lan_ok = lan_ok;
            degraded = lan_ok;
            last_poll_at = env.now;
            last_poll_error = err;
            waiting_for_txid = false;
            last_observed_at = if lan_ok then observed else s.last_observed_at;
          })
          p.status;
    recent_payloads =
        note_payload shorten
          (record {
            at = env.now;
            observed_at = observed;
            station_id = st.id;
            lan_ok = lan_ok;
            posted = none;
            failed_post = none;
            message = err;
            raw = raw;
          })
          p.recent_payloads;
    lan_fail_log_at = note_lan_poll_outcome st.id lan_ok env.now p.lan_fail_log_at;
  }

  -- the status after a poll without an error
  abbrev pub polled_status : TickEnv → Station → Observation → StationStatus → StationStatus
  polled_status env st obs s = record s {
    lan_ok = true;
    last_poll_at = env.now;
    waiting_for_txid = name_eq st.type davis && is_none st.txid;
    degraded = is_zero obs.observed_at;
    last_poll_error = [];
    last_observed_at = obs.observed_at;
  }

  abbrev pub entry_of : TickEnv → Station → Observation → Option ℕ → PayloadLogEntry
  entry_of env st obs raw = record {
    at = env.now;
    observed_at = obs.observed_at;
    station_id = st.id;
    lan_ok = true;
    posted = none;
    failed_post = none;
    message = [];
    raw = raw;
  }

  -- an observation without a time is not posted
  abbrev pub tick_skipped : TickEnv → Station → Observation → Option ℕ → Polling → Polling
  tick_skipped env st obs raw p = record p {
    status =
        set_status st.id
          (λ s. record s {
            degraded = true;
            last_poll_error = missing_timestamp;
            last_observed_at = zero_time;
          })
          p.status;
    recent_payloads =
        note_payload shorten (record (entry_of env st obs raw) { message = missing_timestamp })
          p.recent_payloads;
  }

  -- the entry after the post: the message of a failed one is that of its outcome
  abbrev pub posted_entry : PayloadLogEntry → Outcome → PayloadLogEntry
  posted_entry e Outcome.posted = record e { posted = some true }
  posted_entry e unreachable = record e { posted = some false; failed_post = some unreachable }
  posted_entry e (rejected err) = record e {
    posted = some false;
    failed_post = some (rejected err);
  }

  abbrev pub tick_posted : TickEnv → Station → Observation → Option ℕ → Polling → Polling
  tick_posted env st obs raw p =
      let r =
        post_observation env.configured env.flush env.flush_now env.live (text st.id)
          (weather_request_from_obs obs) p.delivery in
      let entry = entry_of env st obs raw in
      record p {
        delivery = r.0;
        recent_payloads =
            note_payload shorten (if env.configured then posted_entry entry r.1 else entry)
              p.recent_payloads;
      }

  -- `tick`, by what the provider answers
  unfoldable pub tick : TickEnv → Station → PollAnswer → Polling → Polling
  tick env st (poll_failed err) p = tick_failed env st err false zero_time none p
  tick env st (partly_polled err obs raw) p = tick_failed env st err true obs.observed_at raw p
  tick env st (polled obs raw) p =
      let noted = record p { status = set_status st.id (polled_status env st obs) p.status } in
      if is_zero obs.observed_at
      then tick_skipped env st obs raw noted
      else tick_posted env st obs raw noted
