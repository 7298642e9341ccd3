-- ===== src/Station/Uplink.antt =====
-- internal/station/uplink.go: the circuit breaker for weather posts, and how errors are classified.
pub mod Breaker
use aviationwx_bridge.Prelude.{
  Bool, Duration, Instant, Option, before, false, if◌then◌else◌, leb, ltb, none, not, second, some,
  true, zero_time, ℕ, ◌&&◌, ◌*◌, ◌+◌, ◌==◌, ◌||◌,
}

abbrev pub uplink_open_after : ℕ
uplink_open_after = 2

abbrev pub uplink_backoff_start : Duration
uplink_backoff_start = 5 * second

abbrev pub uplink_backoff_cap : Duration
uplink_backoff_cap = 60 * second

-- What the classification asks of an error: the answers of `errors.Is` and `errors.As`, and the
-- HTTP status, 0 where the API gave none.
pub record WeatherErr : Type 0 where
  pub canceled : Bool
  pub status_code : ℕ
  pub deadline_exceeded : Bool
  pub net_error : Bool

unfoldable pub is_transient_weather_err : Option WeatherErr → Bool
is_transient_weather_err none = false
is_transient_weather_err (some e) =
    if e.canceled
    then false
    else if e.status_code == 429 || leb 500 e.status_code
    then true
    else if not (e.status_code == 0)
    then false
    else if e.deadline_exceeded
    then true
    else if e.net_error
    then true
    else true

unfoldable pub is_permanent_weather_err : Option WeatherErr → Bool
is_permanent_weather_err none = false
is_permanent_weather_err (some e) =
    leb 400 e.status_code && ltb e.status_code 500 && not (e.status_code == 429)

pub record WeatherUplink : Type 0 where
  pub is_open : Bool
  pub failures : ℕ
  pub open_until : Instant
  pub backoff : Duration

unfoldable pub new_weather_uplink : WeatherUplink
new_weather_uplink = record {
  is_open = false;
  failures = 0;
  open_until = zero_time;
  backoff = uplink_backoff_start;
}

unfoldable pub probe_due : WeatherUplink → Instant → Bool
probe_due u now = if not u.is_open then true else not (before now u.open_until)

unfoldable pub allow_attempt : WeatherUplink → Instant → WeatherUplink × Bool
allow_attempt u now =
    if not u.is_open
    then (u, true)
    else if before now u.open_until
    then (u, false)
    else (record u { open_until = now + u.backoff }, true)

unfoldable pub note_success : WeatherUplink → WeatherUplink × Bool
note_success u = (
  record { is_open = false; failures = 0; open_until = zero_time; backoff = uplink_backoff_start },
  u.is_open,
)

unfoldable pub note_transient_failure : WeatherUplink → Instant → WeatherUplink × Bool
note_transient_failure u now =
    let counted = record u { failures = u.failures + 1 } in
    if not counted.is_open && ltb counted.failures uplink_open_after
    then (counted, false)
    else let wait = if leb counted.backoff 0 then uplink_backoff_start else counted.backoff in
      let next = wait * 2 in
      (
        record counted {
          is_open = true;
          open_until = now + wait;
          backoff = if ltb uplink_backoff_cap next then uplink_backoff_cap else next;
        },
        not counted.is_open,
      )
