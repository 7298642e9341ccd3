-- ===== src/Station/Ring/Order.antt =====
-- What `pop_ready` takes and what it leaves.
use text.Mathlib.TextEquality.{eq_iff}
use text.Mathlib.Text.{◌==◌ as str_eq}
use aviationwx_bridge.Prelude.{
  Bool, Bool-cases, Duration, Instant, List, String, [], ap, arith, drop, false, if◌then◌else◌, inl,
  inr, refl, take, true, ℕ, ◌||◌, ◌∙◌, ◌∷◌, ◌≡◌,
}
use aviationwx_bridge.Station.Ring.{
  Attempts, OutboundRing, WeatherRequest, contains, pop_ready, prune, select, too_soon,
}

-- the requests of one source, in order
abbrev pub of_source : String → List WeatherRequest → List WeatherRequest
of_source id [] = []
of_source id (req ∷ items) =
    let rest = of_source id items in if str_eq req.source_id id then req ∷ rest else rest

-- a source that may not be taken: it has had its turn, or its last attempt is too recent
abbrev pub blocked : Attempts → Instant → Duration → List String → String → Bool
blocked due now d taken id = contains id taken || too_soon (due id) now d

blocked-eq :
    (due : Attempts) (now : Instant) (d : Duration) (taken : List String) (i j : String)
    → str_eq i j ≡ true
    → blocked due now d taken i ≡ blocked due now d taken j
blocked-eq due now d taken i j e = ap (blocked due now d taken) ((eq_iff i j).0 e)

blocked-cons :
    (due : Attempts) (now : Instant) (d : Duration) (taken : List String) (i j : String)
    → blocked due now d (i ∷ taken) j ≡ (if str_eq i j then true else blocked due now d taken j)
unfolding contains
blocked-cons due now d taken i j = ground arith

select-blocked :
    (due : Attempts) (now : Instant) (d : Duration) (taken : List String)
    (items : List WeatherRequest) (id : String)
    → blocked due now d taken id ≡ true
    → (of_source id (select due now d taken items).0 ≡ [])
      × (of_source id (select due now d taken items).1 ≡ of_source id items)
unfolding select
select-blocked due now d taken [] id h = (refl, refl)
select-blocked due now d taken (req ∷ items) id h =
    let i = req.source_id in
    elim (Bool-cases (blocked due now d taken i)) [
      | inl skip ↦ rw skip (
          let ih = select-blocked due now d taken items id h in
          (ih.0, ap (λ t. if str_eq i id then req ∷ t else t) ih.1))
      | inr go ↦ elim (Bool-cases (str_eq i id)) [
        | inl same ↦ cc (blocked-eq due now d taken i id same)
        | inr other ↦
            rw (go, other)
              (select-blocked due now d (i ∷ taken) items id
                (rw (blocked-cons due now d taken i id, other) h))
      ]
    ]

select-free :
    (due : Attempts) (now : Instant) (d : Duration) (taken : List String)
    (items : List WeatherRequest) (id : String)
    → blocked due now d taken id ≡ false
    → (of_source id (select due now d taken items).0 ≡ take 1 (of_source id items))
      × (of_source id (select due now d taken items).1 ≡ drop 1 (of_source id items))
unfolding select
select-free due now d taken [] id h = (refl, refl)
select-free due now d taken (req ∷ items) id h =
    let i = req.source_id in
    elim (Bool-cases (str_eq i id)) [
      | inl same ↦
          let go : blocked due now d taken i ≡ false = blocked-eq due now d taken i id same ∙ h in
          let ih =
            select-blocked due now d (i ∷ taken) items id
              (rw (blocked-cons due now d taken i id, same) refl) in
          rw (go, same) (ap (λ t. req ∷ t) ih.0, ih.1)
      | inr other ↦ elim (Bool-cases (blocked due now d taken i)) [
        | inl skip ↦ rw (skip, other) (select-free due now d taken items id h)
        | inr go ↦
            rw (go, other)
              (select-free due now d (i ∷ taken) items id
                (rw (blocked-cons due now d taken i id, other) h))
      ]
    ]

-- For every source `pop_ready` takes the oldest sendable request if the last attempt of the source
-- is old enough, and none otherwise; the source's other requests stay in the ring in their order.
pub pop_ready_order :
    (r : OutboundRing) (due : Attempts) (now : Instant) (d : Duration) (id : String)
    → let waiting = of_source id (prune r now).items in
      let n : ℕ = if too_soon (due id) now d then 0 else 1 in
      (of_source id (pop_ready r due now d).1 ≡ take n waiting)
      × (of_source id (pop_ready r due now d).0.items ≡ drop n waiting)
unfolding pop_ready
pop_ready_order r due now d id =
    let items = (prune r now).items in
    elim (Bool-cases (too_soon (due id) now d)) [
      | inl e ↦ rw e (select-blocked due now d [] items id (unfold contains in e))
      | inr e ↦ rw e (select-free due now d [] items id (unfold contains in e))
    ]
