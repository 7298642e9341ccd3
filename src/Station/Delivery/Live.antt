-- ===== src/Station/Delivery/Live.antt =====
-- What becomes of the live observation.
use text.Mathlib.TextPositions.{eq_refl}
use aviationwx_bridge.Prelude.{
  Bool, Bool-cases, Instant, Option, String, [], arith, false, if◌then◌else◌, inl, inr, none, not,
  refl, some, true, ℕ, ◌&&◌, ◌++◌, ◌<◌, ◌∷◌, ◌≡◌, ◌≤◌, ◌⊎◌,
}
use aviationwx_bridge.Station.Ring.{WeatherRequest, push}
use aviationwx_bridge.Station.Uplink.{
  WeatherErr, WeatherUplink, allow_attempt, is_permanent_weather_err, note_success,
}
use aviationwx_bridge.Station.Delivery.{
  Attempt, Manager, Outcome, after_live, flush_ring, handle_weather_post_err, note_weather_post_ok,
  post_observation, posted, queued_message, rejected, set_reason, unreachable, update,
}

-- a failed post is queued unless it was cancelled or rejected for good
abbrev pub queues : WeatherErr → Bool
queues e = not e.canceled && not (is_permanent_weather_err (some e))

-- the breaker lets a post through: it is closed, or its wait is over
abbrev pub IsAllowed : WeatherUplink → Instant → Type 0
IsAllowed u now = (u.is_open ≡ false) ⊎ (u.open_until ≤ now)

-- what the breaker answers
allow_attempt-answer :
    (u : WeatherUplink) (now : Instant)
    → ((allow_attempt u now).1 ≡ true → IsAllowed u now)
      × ((allow_attempt u now).1 ≡ false → (u.is_open ≡ true) × (now < u.open_until))
unfolding allow_attempt
allow_attempt-answer u now = ground arith

-- what a result of `post_observation` says of the state after it, compared with that after the flush
abbrev pub Delivered : Manager → Manager → WeatherRequest → Attempt → String → Outcome → Type 0
Delivered m1 m' req live id posted =
    IsAllowed m1.uplink live.asked
    × (m'.sent ≡ m1.sent ++ ((req, none) ∷ []))
    × (m'.ring ≡ m1.ring)
    × (m'.uplink.is_open ≡ false)
    × ((m'.status id).last_post_error ≡ none)
Delivered m1 m' req live id unreachable =
    (m1.uplink.is_open ≡ true)
    × (live.asked < m1.uplink.open_until)
    × (m'.sent ≡ m1.sent)
    × (m'.ring ≡ push m1.ring req live.asked)
    × ((m'.status id).last_post_error ≡ some queued_message)
Delivered m1 m' req live id (rejected e) =
    IsAllowed m1.uplink live.asked
    × (m'.sent ≡ m1.sent ++ ((req, some e) ∷ []))
    × (m'.ring ≡ (if queues e then push m1.ring req live.done else m1.ring))

update_self {ℓ} : {A : Type ℓ} (f : String → A) (k : String) (a : A) → update f k a k ≡ a
unfolding update
update_self f k a = rw (eq_refl k)

after_live-Delivered :
    (m1 : Manager) (u : WeatherUplink) (id : String) (req : WeatherRequest)
    (result : Option WeatherErr) (live : Attempt)
    → IsAllowed m1.uplink live.asked
    → let r =
        after_live
          (record m1 { uplink = u; sent = m1.sent ++ ((req, result) ∷ []) })
          id
          req
          result
          live.done in
      Delivered m1 r.0 req live id r.1
unfolding after_live note_weather_post_ok note_success handle_weather_post_err set_reason
after_live-Delivered m1 u id req none live a = (a, refl, refl, refl, rw update_self)
after_live-Delivered m1 u id req (some err) live a = elim (Bool-cases err.canceled) [
  | inl c ↦ simp c (a, refl, refl)
  | inr c ↦ elim (Bool-cases (is_permanent_weather_err (some err))) [
    | inl p ↦ simp (c, p) (a, refl, refl)
    | inr p ↦ simp (c, p) (a, refl, refl)
  ]
]

-- With the API configured, a live observation is queued without a post exactly if the breaker is open
-- after the flush and its wait is not over. Else it is posted (the breaker is closed and the reason
-- cleared), or its post failed: it is then queued unless the post was cancelled or rejected for good.
-- Nothing else happens to it after the flush.
pub post_observation_delivers :
    (env : ℕ → Attempt) (now : Instant) (live : Attempt) (id : String) (req : WeatherRequest)
    (m : Manager)
    → let r = post_observation true env now live id req m in
      Delivered (flush_ring true env now m) r.0 req live id r.1
unfolding post_observation set_reason
post_observation_delivers env now live id req m =
    let m1 = flush_ring true env now m in
    let ask = allow_attempt m1.uplink live.asked in
    let answer = allow_attempt-answer m1.uplink live.asked in
    elim (Bool-cases ask.1) [
      | inl e ↦ rw e (after_live-Delivered m1 ask.0 id req live.result live (answer.0 e))
      | inr e ↦ rw e ((answer.1 e).0, (answer.1 e).1, refl, refl, rw update_self)
    ]
