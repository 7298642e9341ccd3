-- ===== src/Station/Catchup.antt =====
-- The ticks that drain the ring, in internal/station/manager.go: `tickCatchup` and
-- `healPostStatusAfterDrain`. `transport` is whether the text of an error is one of the transport.
use aviationwx_bridge.Prelude.{
  Bool, Instant, List, Option, String, [], false, if◌then◌else◌, none, not, some, true, ℕ, ◌&&◌,
  ◌==◌, ◌∷◌,
}
use aviationwx_bridge.Station.Ring.{len}
use aviationwx_bridge.Station.Uplink.{WeatherErr}
use aviationwx_bridge.Station.Delivery.{
  Attempt, Manager, PostReason, PostStatus, failed, flush_ring, queued_message, update,
}

-- `staleWANPostReason`
abbrev pub stale_wan_post_reason : (WeatherErr → Bool) → Option PostReason → Bool
stale_wan_post_reason transport none = false
stale_wan_post_reason transport (some queued_message) = true
stale_wan_post_reason transport (some (failed err)) = transport err

abbrev pub healed : (WeatherErr → Bool) → PostStatus → PostStatus
healed transport s =
    if stale_wan_post_reason transport s.last_post_error
    then record s { last_post_error = none }
    else s

-- the loop over the stations
unfoldable pub heal_all : (WeatherErr → Bool) → List String → Manager → Manager
heal_all transport [] m = m
heal_all transport (id ∷ ids) m =
    heal_all transport ids
      (record m { status = update m.status id (healed transport (m.status id)) })

-- `Len` of the ring
abbrev pub measured : Manager → Instant → Manager × ℕ
measured m now = let r = len m.ring now in (record m { ring = r.0 }, r.1)

-- `healPostStatusAfterDrain`
unfoldable pub heal_post_status_after_drain :
    (WeatherErr → Bool) → List String → Instant → Manager → Manager
heal_post_status_after_drain transport ids now m =
    let r = measured m now in
    if m.uplink.is_open then m else if not (r.1 == 0) then r.0 else heal_all transport ids r.0

-- `tickCatchup`: `now` is the time of the first look at the ring, `later` that after the flush
unfoldable pub tick_catchup :
    (WeatherErr → Bool) → List String → Bool → (ℕ → Attempt) → Instant → Instant → Manager → Manager
tick_catchup transport ids configured env now later m =
    let r = measured m now in
    let flushed = measured (flush_ring configured env now r.0) later in
    if not configured
    then m
    else if r.1 == 0
    then heal_post_status_after_drain transport ids now r.0
    else if not flushed.0.uplink.is_open && flushed.1 == 0
    then heal_post_status_after_drain transport ids later flushed.0
    else flushed.0
