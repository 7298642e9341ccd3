-- ===== src/Station/Examples.antt =====
-- The theorems about the station side at concrete inputs, and tests of its functions.
use aviationwx_bridge.Prelude.{
  Instant, List, String, [], drop, false, if◌then◌else◌, length, none, refl, second, some, take,
  true, ℕ, ◌&&◌, ◌*◌, ◌++◌, ◌+◌, ◌-◌, ◌∷◌, ◌≡◌, ◌≤◌,
}
use aviationwx_bridge.Station.Ring.{
  Attempts, OutboundRing, WeatherRequest, contains, global_min_poll_interval, new_outbound_ring,
  outbound_weather_soft_max, pop_ready, prune, prune_items, push, retain_outbound, select, too_soon,
}
use aviationwx_bridge.Station.Ring.Order.{of_source, pop_ready_order}
use aviationwx_bridge.Station.Ring.Bounds
use aviationwx_bridge.Station.Uplink.{WeatherErr, new_weather_uplink, probe_due}
use aviationwx_bridge.Station.Uplink.Breaker
use aviationwx_bridge.Station.Delivery.{Attempt, Manager, flush_ring, post_observation}
use aviationwx_bridge.Station.Delivery.Loss.{Kept, flush_ring_keeps}
use aviationwx_bridge.Station.Delivery.Live.{Delivered, post_observation_delivers}

abbrev start : Instant
start = 1000 * second

abbrev sample : String → Instant → WeatherRequest
sample id t = record { observed_at = t; source_id = id; provider = "davis"; provider_meta = 0 }

abbrev filled : OutboundRing
filled = record {
  items = sample "a" start ∷ sample "b" start ∷ sample "a" (start + second) ∷ [];
  dropped = 0;
}

abbrev never : Attempts
never id = none

run_bounded_example :
    length (Bounds.run new_outbound_ring ((start, Bounds.pushes (sample "a" start)) ∷ [])).items
    ≤ 1200
run_bounded_example = Bounds.run_bounded ((start, Bounds.pushes (sample "a" start)) ∷ [])

sendable : retain_outbound (sample "c" start) start ≡ true
unfolding retain_outbound
sendable = refl

push_keeps_newest_example :
    let old = (prune filled start).items in
    let excess = length old + 1 - outbound_weather_soft_max in
    ((push filled (sample "c" start) start).items ≡ drop excess old ++ (sample "c" start ∷ []))
    × ((push filled (sample "c" start) start).dropped ≡ 0 + excess)
push_keeps_newest_example = Bounds.push_keeps_newest filled (sample "c" start) start sendable

pop_ready_order_example :
    let waiting = of_source "a" (prune filled start).items in
    let n : ℕ = if too_soon none start second then 0 else 1 in
    (of_source "a" (pop_ready filled never start second).1 ≡ take n waiting)
    × (of_source "a" (pop_ready filled never start second).0.items ≡ drop n waiting)
pop_ready_order_example = pop_ready_order filled never start second "a"

pop_ready_takes_one_each :
    (pop_ready filled never start second).1 ≡ sample "a" start ∷ sample "b" start ∷ []
unfolding pop_ready prune prune_items retain_outbound select contains too_soon
pop_ready_takes_one_each = refl

abbrev outage : List Breaker.Event
outage = Breaker.failure start ∷ Breaker.failure start ∷ []

abbrev timeout : WeatherErr
timeout = record { canceled = false; status_code = 0; deadline_exceeded = true; net_error = false }

abbrev failing : ℕ → Attempt
failing i = record { asked = start; result = some timeout; done = start }

abbrev manager : Manager
manager = record {
  ring = filled;
  uplink = record { is_open = false; failures = 0; open_until = 0; backoff = 5 * second };
  last_catchup_post = never;
  status = λ id. record { last_post_at = 0; last_post_error = none };
  sent = [];
}

flush_ring_keeps_example :
    let popped = pop_ready filled never start global_min_poll_interval in
    ((true && probe_due manager.uplink start) ≡ true
      → Kept failing start 0
          (record manager { ring = popped.0 })
          popped.1
          (flush_ring true failing start manager))
    × ((true && probe_due manager.uplink start) ≡ false
        → flush_ring true failing start manager ≡ manager)
flush_ring_keeps_example = flush_ring_keeps true failing start manager

post_observation_delivers_example :
    let r = post_observation true failing start (failing 0) "a" (sample "a" start) manager in
    Delivered (flush_ring true failing start manager) r.0 (sample "a" start) (failing 0) "a" r.1
post_observation_delivers_example =
    post_observation_delivers failing start (failing 0) "a" (sample "a" start) manager

-- two failed posts and a question after the wait
abbrev two_failures : List Breaker.Event
two_failures =
    Breaker.failure start
    ∷ Breaker.failure (start + second)
    ∷ Breaker.asks (start + 60 * second)
    ∷ []

run-IsSound_example :
    Breaker.IsSound (Breaker.run new_weather_uplink two_failures) (Breaker.streak 0 two_failures)
run-IsSound_example = Breaker.run-IsSound two_failures
