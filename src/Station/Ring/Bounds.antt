-- ===== src/Station/Ring/Bounds.antt =====
-- The ring never outgrows its bound, and after each write holds only what may still be sent.
use aviationwx_bridge.Prelude.{
  All, All-append, All-drop, Bool-cases, Duration, Instant, List, String, [], arith, drop,
  if◌then◌else◌, inl, inr, leb, length, length-append, length-drop, minute, refl, second, suc, true,
  zero, ℕ, ◌*◌, ◌++◌, ◌+◌, ◌-◌, ◌<◌, ◌||◌, ◌∷◌, ◌≡◌, ◌≤◌,
}
use aviationwx_bridge.Station.Ring.{
  Attempts, OutboundRing, WeatherRequest, contains, enforce_soft_max, keep_sources, len,
  new_outbound_ring, outbound_weather_soft_max, pop_ready, prune, prune_items, push, push_front,
  retain_outbound, retain_sources, select, too_soon,
}

pub data Op : Type 0 where
  pushes : WeatherRequest → Op
  pops : Attempts → Duration → Op
  restores : List WeatherRequest → Op
  retains : List String → Op
  measures : Op

pub apply : OutboundRing → Instant × Op → OutboundRing
apply r (now, pushes req) = push r req now
apply r (now, pops due min_interval) = (pop_ready r due now min_interval).0
apply r (now, restores reqs) = push_front r reqs now
apply r (now, retains keep) = retain_sources r keep
apply r (now, measures) = (len r now).0

pub run : OutboundRing → List (Instant × Op) → OutboundRing
run r [] = r
run r (c ∷ cs) = run (apply r c) cs

length-prune_items-le :
    (items : List WeatherRequest) (now : Instant) → length (prune_items items now) ≤ length items
unfolding prune_items
length-prune_items-le [] now = omega arith
length-prune_items-le (req ∷ items) now = ground (arith, length-prune_items-le items now)

length-keep_sources-le :
    (keep : List String) (items : List WeatherRequest)
    → length (keep_sources keep items) ≤ length items
unfolding keep_sources
length-keep_sources-le keep [] = omega arith
length-keep_sources-le keep (req ∷ items) = ground (arith, length-keep_sources-le keep items)

length-select :
    (due : Attempts) (now : Instant) (d : Duration) (taken : List String)
    (items : List WeatherRequest)
    → let s = select due now d taken items in length s.0 + length s.1 ≡ length items
unfolding select
length-select due now d taken [] = omega arith
length-select due now d taken (req ∷ items) =
    let skip = contains req.source_id taken || too_soon (due req.source_id) now d in
    let ih = length-select due now d (if skip then taken else req.source_id ∷ taken) items in
    elim (Bool-cases skip) [ inl e ↦ ground (arith, ih) | inr e ↦ ground (arith, ih) ]

length-enforce_soft_max-le :
    (r : OutboundRing) → length (enforce_soft_max r).items ≤ outbound_weather_soft_max
unfolding enforce_soft_max
length-enforce_soft_max-le r =
    ground (arith, length-drop (length r.items - outbound_weather_soft_max) r.items)

length-prune-le : (r : OutboundRing) (now : Instant) → length (prune r now).items ≤ length r.items
unfolding prune
length-prune-le r now = length-prune_items-le r.items now

apply-le :
    (r : OutboundRing) (c : Instant × Op)
    → length r.items ≤ outbound_weather_soft_max
    → length (apply r c).items ≤ outbound_weather_soft_max
unfolding apply push pop_ready push_front retain_sources len
apply-le r (now, pushes req) h =
    let r' = prune r now in
    elim (Bool-cases (retain_outbound req now)) [
      | inl e ↦ rw e (length-enforce_soft_max-le (record r' { items = r'.items ++ (req ∷ []) }))
      | inr e ↦ rw e (omega (arith, length-prune-le r now))
    ]
apply-le r (now, pops due d) h =
    omega (arith, length-prune-le r now, length-select due now d [] (prune r now).items)
apply-le r (now, restores []) h = h
apply-le r (now, restores (q ∷ reqs)) h =
    length-enforce_soft_max-le (prune (record r { items = (q ∷ reqs) ++ r.items }) now)
apply-le r (now, retains keep) h = omega (arith, length-keep_sources-le keep r.items)
apply-le r (now, measures) h = omega (arith, length-prune-le r now)

run-le :
    (r : OutboundRing) (cs : List (Instant × Op))
    → length r.items ≤ outbound_weather_soft_max
    → length (run r cs).items ≤ outbound_weather_soft_max
unfolding run
run-le r [] h = h
run-le r (c ∷ cs) h = run-le (apply r c) cs (apply-le r c h)

-- From an empty ring, whatever the calls and their times, the ring never holds more than 1200
-- requests, the soft maximum.
pub run_bounded : (cs : List (Instant × Op)) → length (run new_outbound_ring cs).items ≤ 1200
unfolding new_outbound_ring
run_bounded cs = run-le new_outbound_ring cs (omega arith)

abbrev pub IsSendable : Instant → WeatherRequest → Type 0
IsSendable now req =
    (0 < req.observed_at)
    × (now ≤ req.observed_at + 10 * minute)
    × (req.observed_at ≤ now + 60 * second)

retain_outbound-IsSendable :
    (req : WeatherRequest) (now : Instant) → retain_outbound req now ≡ true → IsSendable now req
unfolding retain_outbound
retain_outbound-IsSendable req now h = ground arith

prune_items-All :
    (items : List WeatherRequest) (now : Instant) → All (IsSendable now) (prune_items items now)
unfolding prune_items
prune_items-All [] now = tt
prune_items-All (req ∷ items) now = elim (Bool-cases (retain_outbound req now)) [
  | inl e ↦ rw e (retain_outbound-IsSendable req now e, prune_items-All items now)
  | inr e ↦ rw e (prune_items-All items now)
]

enforce_soft_max-All :
    (P : WeatherRequest → Type 0) (r : OutboundRing)
    → All P r.items
    → All P (enforce_soft_max r).items
unfolding enforce_soft_max
enforce_soft_max-All P r h = elim (Bool-cases (leb (length r.items) outbound_weather_soft_max)) [
  | inl e ↦ rw e h
  | inr e ↦ rw e (All-drop P (length r.items - outbound_weather_soft_max) r.items h)
]

-- After a push and after a restore of at least one request, every queued request has a timestamp
-- that is at most ten minutes old and at most a minute in the future.
pub push-All :
    (r : OutboundRing) (req q : WeatherRequest) (reqs : List WeatherRequest) (now : Instant)
    → All (IsSendable now) (push r req now).items
      × All (IsSendable now) (push_front r (q ∷ reqs) now).items
unfolding push push_front prune
push-All r req q reqs now = (
  elim (Bool-cases (retain_outbound req now)) [
    | inl e ↦ rw e (
        enforce_soft_max-All (IsSendable now) _ (
          All-append (IsSendable now) (prune_items r.items now) (req ∷ [])
            (prune_items-All r.items now) (retain_outbound-IsSendable req now e, tt)))
    | inr e ↦ rw e (prune_items-All r.items now)
  ],
  enforce_soft_max-All (IsSendable now) _ (prune_items-All ((q ∷ reqs) ++ r.items) now),
)

drop-append_one :
    (k : ℕ) (xs : List WeatherRequest) (x : WeatherRequest)
    → k ≤ length xs
    → drop k (xs ++ (x ∷ [])) ≡ drop k xs ++ (x ∷ [])
drop-append_one zero xs x h = refl
drop-append_one (suc k) [] x h = elim h [ ]
drop-append_one (suc k) (y ∷ xs) x h = drop-append_one k xs x (omega arith)

pub enforce_soft_max-drop :
    (r : OutboundRing)
    → ((enforce_soft_max r).items ≡ drop (length r.items - outbound_weather_soft_max) r.items)
      × ((enforce_soft_max r).dropped ≡ r.dropped + (length r.items - outbound_weather_soft_max))
unfolding enforce_soft_max
enforce_soft_max-drop r = elim (Bool-cases (leb (length r.items) outbound_weather_soft_max)) [
  | inl e ↦
      let none_over : length r.items - outbound_weather_soft_max ≡ 0 = ground arith in
      rw (e, none_over) (refl, omega arith)
  | inr e ↦ rw e (refl, refl)
]

-- A push of a sendable request puts it last, after the sendable requests that were there, of which
-- the oldest are dropped, and counted as dropped, only as far as the soft maximum demands.
pub push_keeps_newest :
    (r : OutboundRing) (req : WeatherRequest) (now : Instant)
    → retain_outbound req now ≡ true
    → let old = (prune r now).items in
      let excess = length old + 1 - outbound_weather_soft_max in
      ((push r req now).items ≡ drop excess old ++ (req ∷ []))
      × ((push r req now).dropped ≡ r.dropped + excess)
unfolding push prune
push_keeps_newest r req now h =
    let old = prune_items r.items now in
    let all = old ++ (req ∷ []) in
    let cut = enforce_soft_max-drop (record r { items = all }) in
    rw (h, ← length-append old (req ∷ []))
      (
        rw cut.0 (
            drop-append_one (length all - outbound_weather_soft_max) old req
              (omega (arith, length-append old (req ∷ [])))),
        cut.1,
      )
