-- ===== src/Station/Times/Delivery.antt =====
-- The delivery posts no request that was not given to it. `P` is a property of requests.
use aviationwx_bridge.Prelude.{
  All, All-append, Bool, Bool-cases, Instant, List, Option, String, [], false, if◌then◌else◌, inl,
  inr, none, not, some, suc, true, ℕ, ◌&&◌, ◌++◌, ◌==◌, ◌∷◌,
}
use aviationwx_bridge.Station.Ring.{WeatherRequest, global_min_poll_interval, len, pop_ready}
use aviationwx_bridge.Station.Uplink.{
  WeatherErr, allow_attempt, is_permanent_weather_err, probe_due,
}
use aviationwx_bridge.Station.Delivery.{
  Attempt, Manager, Outcome, after_live, after_post, flush_loop, flush_ready, flush_ring,
  handle_weather_post_err, note_weather_post_ok, post, post_observation, rejected, restore,
  set_reason, update,
}
use aviationwx_bridge.Station.Catchup.{
  heal_all, heal_post_status_after_drain, healed, measured, tick_catchup,
}
use aviationwx_bridge.Station.Times.Ring.{pop_ready_kept, prune-All, push_front_kept, push_kept}

-- every request that waits or was posted
abbrev pub Holds : (WeatherRequest → Type 0) → Manager → Type 0
Holds P m = All P m.ring.items × All (λ x. P x.0) m.sent

pub if_keeps :
    {A : Type 0} (Q : A → Type 0) (b : Bool) (x y : A) → Q x → Q y → Q (if b then x else y)
if_keeps Q true x y h k = h
if_keeps Q false x y h k = k

module _ (P : WeatherRequest → Type 0) where
  note-Holds :
      (m : Manager) (id : String) (now : Instant)
      → Holds P m
      → Holds P (note_weather_post_ok m id now)
  unfolding note_weather_post_ok
  note-Holds m id now h = h

  handle-Holds :
      (m : Manager) (id : String) (req : WeatherRequest) (err : WeatherErr) (queue : Bool)
      (now : Instant)
      → P req
      → Holds P m
      → Holds P (handle_weather_post_err m id req err queue now)
  unfolding handle_weather_post_err set_reason
  handle-Holds m id req err queue now p h =
      elim (Bool-cases (is_permanent_weather_err (some err))) [
        | inl e ↦ rw e h
        | inr e ↦ elim (Bool-cases err.canceled) [
          | inl c ↦ rw (e, c) h
          | inr c ↦ elim (Bool-cases queue) [
            | inl q ↦ rw (e, c, q) (push_kept P m.ring req now p h.0, h.1)
            | inr q ↦ rw (e, c, q) h
          ]
        ]
      ]

  post-Holds :
      (m : Manager) (req : WeatherRequest) (result : Option WeatherErr) (done : Instant)
      → P req
      → Holds P m
      → Holds P (post m req result done)
  unfolding post
  post-Holds m req result done p h =
      (h.0, All-append (λ x. P x.0) m.sent ((req, result) ∷ []) h.1 (p, tt))

  restore-Holds :
      (m : Manager) (reqs : List WeatherRequest) (now : Instant)
      → All P reqs
      → Holds P m
      → Holds P (restore m reqs now)
  unfolding restore
  restore-Holds m reqs now k h = (push_front_kept P m.ring reqs now k h.0, h.1)

  after_post-Holds :
      (continue : Manager → Manager) (m : Manager) (req : WeatherRequest)
      (rest : List WeatherRequest) (result : Option WeatherErr) (done : Instant)
      → ((n : Manager) → Holds P n → Holds P (continue n))
      → All P (req ∷ rest)
      → Holds P m
      → Holds P (after_post continue m req rest result done)
  unfolding after_post
  after_post-Holds continue m req rest none done c k h =
      c (note_weather_post_ok m req.source_id done) (note-Holds m req.source_id done h)
  after_post-Holds continue m req rest (some err) done c k h =
      let noted = handle_weather_post_err m req.source_id req err false done in
      let kept = handle-Holds m req.source_id req err false done k.0 h in
      if_keeps (Holds P) err.canceled (restore m (req ∷ rest) done)
        (if is_permanent_weather_err (some err)
          then continue noted
          else restore noted (req ∷ rest) done)
        (restore-Holds m (req ∷ rest) done k h)
        (if_keeps (Holds P) (is_permanent_weather_err (some err)) (continue noted)
          (restore noted (req ∷ rest) done) (c noted kept)
          (restore-Holds noted (req ∷ rest) done k kept))

  flush_loop-Holds :
      (env : ℕ → Attempt) (i : ℕ) (reqs : List WeatherRequest) (m : Manager)
      → All P reqs
      → Holds P m
      → Holds P (flush_loop env i reqs m)
  unfolding flush_loop
  flush_loop-Holds env i [] m k h = h
  flush_loop-Holds env i (req ∷ rest) m k h =
      let a = env i in
      let ask = if i == 0 then (m.uplink, true) else allow_attempt m.uplink a.asked in
      let asked = record m { uplink = ask.0 } in
      elim (Bool-cases ask.1) [
        | inr e ↦ rw e (restore-Holds asked (req ∷ rest) a.asked k h)
        | inl e ↦ rw e (
            after_post-Holds (flush_loop env (suc i) rest) (post asked req a.result a.done) req rest
              a.result a.done (λ n q. flush_loop-Holds env (suc i) rest n k.1 q) k
              (post-Holds asked req a.result a.done k.0 h))
      ]

  flush_ready-Holds :
      (env : ℕ → Attempt) (now : Instant) (reqs : List WeatherRequest) (m : Manager)
      → All P reqs
      → Holds P m
      → Holds P (flush_ready env now reqs m)
  unfolding flush_ready
  flush_ready-Holds env now [] m k h = h
  flush_ready-Holds env now (req ∷ rest) m k h =
      let ask = allow_attempt m.uplink now in
      let asked = record m { uplink = ask.0 } in
      elim (Bool-cases ask.1) [
        | inr e ↦ rw e (restore-Holds asked (req ∷ rest) now k h)
        | inl e ↦ rw e (flush_loop-Holds env 0 (req ∷ rest) asked k h)
      ]

  pub flush_ring-Holds :
      (configured : Bool) (env : ℕ → Attempt) (now : Instant) (m : Manager)
      → Holds P m
      → Holds P (flush_ring configured env now m)
  unfolding flush_ring
  flush_ring-Holds false env now m h = h
  flush_ring-Holds true env now m h = elim (Bool-cases (probe_due m.uplink now)) [
    | inr e ↦ rw e h
    | inl e ↦ rw e (
        let popped = pop_ready_kept P m.ring m.last_catchup_post now global_min_poll_interval h.0 in
        flush_ready-Holds env now
          (pop_ready m.ring m.last_catchup_post now global_min_poll_interval).1
          (record m {
            ring = (pop_ready m.ring m.last_catchup_post now global_min_poll_interval).0;
          })
          popped.1 (popped.0, h.1))
  ]

  after_live-Holds :
      (m : Manager) (id : String) (req : WeatherRequest) (result : Option WeatherErr)
      (done : Instant)
      → P req
      → Holds P m
      → Holds P (after_live m id req result done).0
  unfolding after_live
  after_live-Holds m id req none done p h = note-Holds m id done h
  after_live-Holds m id req (some err) done p h =
      if_keeps (λ (r : Manager × Outcome). Holds P r.0) err.canceled (m, rejected err)
        (handle_weather_post_err m id req err true done, rejected err) h
        (handle-Holds m id req err true done p h)

  pub post_observation-Holds :
      (configured : Bool) (env : ℕ → Attempt) (now : Instant) (live : Attempt) (id : String)
      (req : WeatherRequest) (m : Manager)
      → P req
      → Holds P m
      → Holds P (post_observation configured env now live id req m).0
  unfolding post_observation set_reason
  post_observation-Holds false env now live id req m p h = h
  post_observation-Holds true env now live id req m p h =
      let flushed = flush_ring true env now m in
      let kept = flush_ring-Holds true env now m h in
      elim (Bool-cases (allow_attempt flushed.uplink live.asked).1) [
        | inr e ↦ rw e (push_kept P flushed.ring req live.asked p kept.0, kept.1)
        | inl e ↦ rw e (
            after_live-Holds
              (record flushed {
                uplink = (allow_attempt flushed.uplink live.asked).0;
                sent = flushed.sent ++ ((req, live.result) ∷ []);
              })
              id req live.result live.done p
              (
                kept.0,
                All-append (λ x. P x.0) flushed.sent ((req, live.result) ∷ []) kept.1 (p, tt),
              ))
      ]

  heal_all-Holds :
      (transport : WeatherErr → Bool) (ids : List String) (m : Manager)
      → Holds P m
      → Holds P (heal_all transport ids m)
  unfolding heal_all
  heal_all-Holds transport [] m h = h
  heal_all-Holds transport (id ∷ ids) m h =
      heal_all-Holds transport ids
        (record m { status = update m.status id (healed transport (m.status id)) }) h

  measured-Holds : (m : Manager) (now : Instant) → Holds P m → Holds P (measured m now).0
  unfolding len
  measured-Holds m now h = (prune-All P m.ring now h.0, h.1)

  heal-Holds :
      (transport : WeatherErr → Bool) (ids : List String) (now : Instant) (m : Manager)
      → Holds P m
      → Holds P (heal_post_status_after_drain transport ids now m)
  unfolding heal_post_status_after_drain
  heal-Holds transport ids now m h =
      let r = measured m now in
      let kept = measured-Holds m now h in
      if_keeps (Holds P) m.uplink.is_open m
        (if not (r.1 == 0) then r.0 else heal_all transport ids r.0) h
        (if_keeps (Holds P) (not (r.1 == 0)) r.0 (heal_all transport ids r.0) kept
          (heal_all-Holds transport ids r.0 kept))

  pub tick_catchup-Holds :
      (transport : WeatherErr → Bool) (ids : List String) (configured : Bool) (env : ℕ → Attempt)
      (now later : Instant) (m : Manager)
      → Holds P m
      → Holds P (tick_catchup transport ids configured env now later m)
  unfolding tick_catchup
  tick_catchup-Holds transport ids configured env now later m h =
      let r = measured m now in
      let kept = measured-Holds m now h in
      let flushed = measured (flush_ring configured env now r.0) later in
      let after_flush =
        measured-Holds (flush_ring configured env now r.0) later
          (flush_ring-Holds configured env now r.0 kept) in
      let healed_first = heal_post_status_after_drain transport ids now r.0 in
      let healed_last = heal_post_status_after_drain transport ids later flushed.0 in
      let drained = not flushed.0.uplink.is_open && flushed.1 == 0 in
      if_keeps (Holds P) (not configured) m
        (if r.1 == 0 then healed_first else if drained then healed_last else flushed.0) h
        (if_keeps (Holds P) (r.1 == 0) healed_first (if drained then healed_last else flushed.0)
          (heal-Holds transport ids now r.0 kept)
          (if_keeps (Holds P) drained healed_last flushed.0
            (heal-Holds transport ids later flushed.0 after_flush) after_flush))
