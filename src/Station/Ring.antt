-- ===== src/Station/Ring.antt =====
-- internal/station/ring.go: the in-memory FIFO of weather posts that failed. Items are in order of
-- arrival. `kept := r.items[:0]` and the copies write in place; the lists are the resulting items.
pub mod Order
pub mod Bounds
use text.Mathlib.Text.{◌==◌ as str_eq}
use aviationwx_bridge.Prelude.{
  Bool, Duration, Instant, List, Option, String, [], after, before, drop, false, if◌then◌else◌,
  is_zero, leb, length, ltb, minute, none, not, second, some, true, ℕ, ◌*◌, ◌++◌, ◌+◌, ◌-◌, ◌/◌,
  ◌||◌, ◌∷◌,
}

abbrev pub outbound_weather_max_age : Duration
outbound_weather_max_age = 10 * minute

abbrev pub outbound_future_skew : Duration
outbound_future_skew = 60 * second

abbrev pub global_min_poll_interval : Duration
global_min_poll_interval = second

abbrev pub outbound_weather_soft_max : ℕ
outbound_weather_soft_max = outbound_weather_max_age / global_min_poll_interval * 2

-- `bridgeapi.WeatherRequest`, with the provider's data as one opaque value.
pub record WeatherRequest : Type 0 where
  pub observed_at : Instant
  pub source_id : String
  pub provider : String
  pub provider_meta : ℕ

-- `dropped` adds up what `onSoftMaxDrop` was told.
pub record OutboundRing : Type 0 where
  pub items : List WeatherRequest
  pub dropped : ℕ

unfoldable pub new_outbound_ring : OutboundRing
new_outbound_ring = record { items = []; dropped = 0 }

unfoldable pub retain_outbound : WeatherRequest → Instant → Bool
retain_outbound req now =
    if is_zero req.observed_at
    then false
    else if before (req.observed_at + outbound_weather_max_age) now
    then false
    else if after req.observed_at (now + outbound_future_skew)
    then false
    else true

unfoldable pub prune_items : List WeatherRequest → Instant → List WeatherRequest
prune_items [] now = []
prune_items (req ∷ items) now =
    let rest = prune_items items now in if retain_outbound req now then req ∷ rest else rest

unfoldable pub prune : OutboundRing → Instant → OutboundRing
prune r now = record r { items = prune_items r.items now }

unfoldable pub enforce_soft_max : OutboundRing → OutboundRing
enforce_soft_max r =
    if leb (length r.items) outbound_weather_soft_max
    then r
    else let excess = length r.items - outbound_weather_soft_max in
      record { items = drop excess r.items; dropped = r.dropped + excess }

-- `Len` prunes first
unfoldable pub len : OutboundRing → Instant → OutboundRing × ℕ
len r now = let r' = prune r now in (r', length r'.items)

unfoldable pub push : OutboundRing → WeatherRequest → Instant → OutboundRing
push r req now =
    let r' = prune r now in
    if not (retain_outbound req now)
    then r'
    else enforce_soft_max (record r' { items = r'.items ++ (req ∷ []) })

-- The map of the last catch-up attempt by source id.
abbrev pub Attempts : Type 0
Attempts = String → Option Instant

unfoldable pub contains : String → List String → Bool
contains id [] = false
contains id (t ∷ ts) = str_eq t id || contains id ts

-- `last, ok := due[id]; ok && now.Sub(last) < minInterval`
unfoldable pub too_soon : Option Instant → Instant → Duration → Bool
too_soon none now min_interval = false
too_soon (some last) now min_interval = ltb now (last + min_interval)

-- the loop of `PopReady`: the requests taken and those kept, each in order
unfoldable pub select :
    Attempts
    → Instant
    → Duration
    → List String
    → List WeatherRequest
    → List WeatherRequest × List WeatherRequest
select due now min_interval taken [] = ([], [])
select due now min_interval taken (req ∷ items) =
    let id = req.source_id in
    let skip = contains id taken || too_soon (due id) now min_interval in
    let rest = select due now min_interval (if skip then taken else id ∷ taken) items in
    if skip then (rest.0, req ∷ rest.1) else (req ∷ rest.0, rest.1)

unfoldable pub pop_ready :
    OutboundRing → Attempts → Instant → Duration → OutboundRing × List WeatherRequest
pop_ready r due now min_interval =
    let r' = prune r now in
    let s = select due now min_interval [] r'.items in (record r' { items = s.1 }, s.0)

unfoldable pub push_front : OutboundRing → List WeatherRequest → Instant → OutboundRing
push_front r [] now = r
push_front r (q ∷ reqs) now =
    enforce_soft_max (prune (record r { items = (q ∷ reqs) ++ r.items }) now)

unfoldable pub keep_sources : List String → List WeatherRequest → List WeatherRequest
keep_sources keep [] = []
keep_sources keep (req ∷ items) =
    let rest = keep_sources keep items in if contains req.source_id keep then req ∷ rest else rest

unfoldable pub retain_sources : OutboundRing → List String → OutboundRing
retain_sources r keep = record r { items = keep_sources keep r.items }
