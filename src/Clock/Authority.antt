-- ===== src/Clock/Authority.antt =====
-- `DetermineObservationTime` of internal/time/authority.go. `to_utc` reads the naive time of the camera
-- in the time zone of the bridge (`time.Date` with a location, and `UTC`).
use aviationwx_bridge.Prelude.{
  Bool, Instant, Option, false, if◌then◌else◌, none, second, some, true, ℕ, ◌*◌,
}
use aviationwx_bridge.Clock.{abs_duration, at_most, sub}

pub data TimeSource : Type 0 where
  camera_exif bridge_clock : TimeSource

pub data Confidence : Type 0 where
  high medium low : Confidence

-- the codes of the warnings
pub data TimeWarning : Type 0 where
  ntp_unhealthy camera_clock_drift camera_clock_rejected camera_clock_invalid : TimeWarning

pub record ObservationResult : Type 0 where
  pub time : Instant
  pub source : TimeSource
  pub confidence : Confidence
  pub warning : Option TimeWarning

pub record AuthorityConfig : Type 0 where
  pub camera_tolerance_seconds : ℕ
  pub camera_warn_drift_seconds : ℕ
  pub camera_reject_drift_seconds : ℕ

unfoldable pub default_authority_config : AuthorityConfig
default_authority_config = record {
  camera_tolerance_seconds = 5;
  camera_warn_drift_seconds = 30;
  camera_reject_drift_seconds = 300;
}

-- the `switch` on the drift
unfoldable pub decide : AuthorityConfig → Instant → Instant → ObservationResult
decide c start camera =
    let drift = abs_duration (sub start camera) in
    if at_most drift (c.camera_tolerance_seconds * second)
    then record { time = camera; source = camera_exif; confidence = high; warning = none }
    else if at_most drift (c.camera_warn_drift_seconds * second)
    then record {
      time = camera;
      source = camera_exif;
      confidence = high;
      warning = some camera_clock_drift;
    }
    else if at_most drift (c.camera_reject_drift_seconds * second)
    then record {
      time = start;
      source = bridge_clock;
      confidence = high;
      warning = some camera_clock_rejected;
    }
    else record {
      time = start;
      source = bridge_clock;
      confidence = high;
      warning = some camera_clock_invalid;
    }

-- `ntp` is `none` where no NTP check is configured, and the health that it tells otherwise
unfoldable pub determine_observation_time :
    (Instant → Instant)
    → AuthorityConfig
    → Option Bool
    → Instant
    → Option Instant
    → ObservationResult
determine_observation_time to_utc c (some false) start exif = record {
  time = start;
  source = bridge_clock;
  confidence = low;
  warning = some ntp_unhealthy;
}
determine_observation_time to_utc c (some true) start none = record {
  time = start;
  source = bridge_clock;
  confidence = high;
  warning = none;
}
determine_observation_time to_utc c (some true) start (some exif) = decide c start (to_utc exif)
determine_observation_time to_utc c none start none = record {
  time = start;
  source = bridge_clock;
  confidence = high;
  warning = none;
}
determine_observation_time to_utc c none start (some exif) = decide c start (to_utc exif)
