-- ===== src/Clock/Choice.antt =====
-- Which time an image gets.
use aviationwx_bridge.Prelude.{
  Bool, Instant, Option, arith, false, if◌then◌else◌, ltb, none, refl, second, some, true, ◌*◌, ◌+◌,
  ◌<◌, ◌^◌, ◌≡◌, ◌≤◌,
}
use aviationwx_bridge.Clock.{min_magnitude, sub}
use aviationwx_bridge.Clock.Authority.{
  AuthorityConfig, TimeSource, bridge_clock, camera_exif, decide, determine_observation_time, high,
  low,
}

-- what the source of a result says of its time
abbrev pub IsJustified : AuthorityConfig → Instant → TimeSource → Instant → Type 0
IsJustified c start bridge_clock t = t ≡ start
IsJustified c start camera_exif t =
    let limit =
      if ltb c.camera_warn_drift_seconds c.camera_tolerance_seconds
      then c.camera_tolerance_seconds * second
      else c.camera_warn_drift_seconds * second in
    (t ≤ start + limit) × (start ≤ t + limit)

decide-IsJustified :
    (c : AuthorityConfig) (start camera : Instant)
    → camera < start + min_magnitude
    → c.camera_tolerance_seconds * second < 2 ^ 63
    → c.camera_warn_drift_seconds * second < 2 ^ 63
    → IsJustified c start (decide c start camera).source (decide c start camera).time
unfolding decide sub
decide-IsJustified c start camera h a b = ground arith

-- The time of an image is the start of its capture, or the camera's time where that lies within the
-- larger of the two tolerances of the start; the latter only while no NTP check has found the clock
-- unhealthy. The camera's time is less than 2^63 ns (292 years) after the start.
pub determine_observation_time-IsJustified :
    (to_utc : Instant → Instant) (c : AuthorityConfig) (ntp : Option Bool) (start exif : Instant)
    → to_utc exif < start + min_magnitude
    → c.camera_tolerance_seconds * second < 2 ^ 63
    → c.camera_warn_drift_seconds * second < 2 ^ 63
    → let r = determine_observation_time to_utc c ntp start (some exif) in
      IsJustified c start r.source r.time
      × (ntp ≡ some false → (r.source ≡ bridge_clock) × (r.confidence ≡ low))
unfolding determine_observation_time
determine_observation_time-IsJustified to_utc c (some false) start exif h a b =
    (refl, λ n. (refl, refl))
determine_observation_time-IsJustified to_utc c (some true) start exif h a b =
    (decide-IsJustified c start (to_utc exif) h a b, λ n. absurd (cc n))
determine_observation_time-IsJustified to_utc c none start exif h a b =
    (decide-IsJustified c start (to_utc exif) h a b, λ n. absurd (cc n))

-- A camera clock that is 2^63 ns (292 years) or more ahead of a trusted bridge is taken without a
-- warning and with high confidence: the difference stops at the least duration, whose negation is
-- itself, and that is below every tolerance.
pub determine_observation_time_overflow :
    (to_utc : Instant → Instant) (c : AuthorityConfig) (start exif : Instant)
    → start + min_magnitude ≤ to_utc exif
    → let r = determine_observation_time to_utc c (some true) start (some exif) in
      (r.time ≡ to_utc exif) × (r.source ≡ camera_exif) × (r.confidence ≡ high) × (r.warning ≡ none)
unfolding determine_observation_time decide sub
determine_observation_time_overflow to_utc c start exif h = ground arith
