-- ===== src/Station/Times/Ring.antt =====
-- The ring holds no request that was not put into it. `P` is a property of requests.
use aviationwx_bridge.Prelude.{
  All, All-append, All-drop, Bool-cases, Duration, Instant, List, String, [], inl, inr, leb, length,
  ◌++◌, ◌-◌, ◌||◌, ◌∷◌,
}
use aviationwx_bridge.Station.Ring.{
  Attempts, OutboundRing, WeatherRequest, contains, enforce_soft_max, keep_sources,
  outbound_weather_soft_max, pop_ready, prune, prune_items, push, push_front, retain_outbound,
  retain_sources, select, too_soon,
}

module _ (P : WeatherRequest → Type 0) where
  prune_items-All :
      (items : List WeatherRequest) (now : Instant) → All P items → All P (prune_items items now)
  unfolding prune_items
  prune_items-All [] now h = tt
  prune_items-All (req ∷ items) now h = elim (Bool-cases (retain_outbound req now)) [
    | inl e ↦ rw e (h.0, prune_items-All items now h.1)
    | inr e ↦ rw e (prune_items-All items now h.1)
  ]

  pub prune-All : (r : OutboundRing) (now : Instant) → All P r.items → All P (prune r now).items
  unfolding prune
  prune-All r now h = prune_items-All r.items now h

  enforce-All : (r : OutboundRing) → All P r.items → All P (enforce_soft_max r).items
  unfolding enforce_soft_max
  enforce-All r h = elim (Bool-cases (leb (length r.items) outbound_weather_soft_max)) [
    | inl e ↦ rw e h
    | inr e ↦ rw e (All-drop P (length r.items - outbound_weather_soft_max) r.items h)
  ]

  pub push_kept :
      (r : OutboundRing) (req : WeatherRequest) (now : Instant)
      → P req
      → All P r.items
      → All P (push r req now).items
  unfolding push
  push_kept r req now p h = elim (Bool-cases (retain_outbound req now)) [
    | inr e ↦ rw e (prune-All r now h)
    | inl e ↦ rw e (
        enforce-All (record (prune r now) { items = (prune r now).items ++ (req ∷ []) })
          (All-append P (prune r now).items (req ∷ []) (prune-All r now h) (p, tt)))
  ]

  pub push_front_kept :
      (r : OutboundRing) (reqs : List WeatherRequest) (now : Instant)
      → All P reqs
      → All P r.items
      → All P (push_front r reqs now).items
  unfolding push_front
  push_front_kept r [] now k h = h
  push_front_kept r (q ∷ reqs) now k h =
      enforce-All (prune (record r { items = (q ∷ reqs) ++ r.items }) now) (
        prune-All (record r { items = (q ∷ reqs) ++ r.items }) now
          (All-append P (q ∷ reqs) r.items k h))

  select_kept :
      (due : Attempts) (now : Instant) (gap : Duration) (taken : List String)
      (items : List WeatherRequest)
      → All P items
      → All P (select due now gap taken items).0 × All P (select due now gap taken items).1
  unfolding select
  select_kept due now gap taken [] h = (tt, tt)
  select_kept due now gap taken (req ∷ items) h =
      elim (Bool-cases (contains req.source_id taken || too_soon (due req.source_id) now gap)) [
        | inl e ↦
            rw e (let rest = select_kept due now gap taken items h.1 in (rest.0, (h.0, rest.1)))
        | inr e ↦ rw e (
            let rest = select_kept due now gap (req.source_id ∷ taken) items h.1 in
            ((h.0, rest.0), rest.1))
      ]

  pub pop_ready_kept :
      (r : OutboundRing) (due : Attempts) (now : Instant) (gap : Duration)
      → All P r.items
      → All P (pop_ready r due now gap).0.items × All P (pop_ready r due now gap).1
  unfolding pop_ready
  pop_ready_kept r due now gap h =
      let s = select_kept due now gap [] (prune r now).items (prune-All r now h) in (s.1, s.0)

  keep_sources-All :
      (keep : List String) (items : List WeatherRequest)
      → All P items
      → All P (keep_sources keep items)
  unfolding keep_sources
  keep_sources-All keep [] h = tt
  keep_sources-All keep (req ∷ items) h = elim (Bool-cases (contains req.source_id keep)) [
    | inl e ↦ rw e (h.0, keep_sources-All keep items h.1)
    | inr e ↦ rw e (keep_sources-All keep items h.1)
  ]

  pub retain_sources_kept :
      (r : OutboundRing) (keep : List String) → All P r.items → All P (retain_sources r keep).items
  unfolding retain_sources
  retain_sources_kept r keep h = keep_sources-All keep r.items h
