-- ===== src/Station/Delivery/Loss.antt =====
-- What becomes of the requests that a flush takes out of the ring.
use mathlib.Core.List.{append-nil, append_assoc}
use aviationwx_bridge.Prelude.{
  Bool, Bool-cases, Instant, List, Option, String, [], ap, arith, drop, false, if◌then◌else◌, inl,
  inr, length, none, not, refl, some, subst, suc, sym, take, true, ℕ, ◌&&◌, ◌++◌, ◌+◌, ◌-◌, ◌==◌,
  ◌∙◌, ◌∷◌, ◌≡◌, ◌⊎◌,
}
use aviationwx_bridge.Station.Ring.Bounds.{enforce_soft_max-drop}
use aviationwx_bridge.Station.Ring.{
  OutboundRing, WeatherRequest, global_min_poll_interval, outbound_weather_soft_max, pop_ready,
  prune, prune_items, push_front,
}
use aviationwx_bridge.Station.Uplink.{
  WeatherErr, WeatherUplink, allow_attempt, is_permanent_weather_err, probe_due,
}
use aviationwx_bridge.Station.Delivery.{
  Attempt, Manager, after_post, flush_loop, flush_ready, flush_ring, handle_weather_post_err,
  note_weather_post_ok, post, restore, set_reason,
}

-- A post settles its request if it succeeded or was rejected for good.
abbrev pub settled : Option WeatherErr → Bool
settled none = true
settled (some e) = not e.canceled && is_permanent_weather_err (some e)

abbrev pub Log : Type 0
Log = List (WeatherRequest × Option WeatherErr)

abbrev pub settled_of : Log → List WeatherRequest
settled_of [] = []
settled_of ((req, result) ∷ log) =
    let rest = settled_of log in if settled result then req ∷ rest else rest

-- What is put back at the time `at`: it stands before what was there, and of all these the ring keeps
-- those that may still be sent, and of them the newest, as many as the soft maximum allows.
abbrev pub Restored : OutboundRing → List WeatherRequest → Instant → OutboundRing → Type 0
Restored r [] at r' = r' ≡ r
Restored r (req ∷ reqs) at r' =
    let all = prune_items ((req ∷ reqs) ++ r.items) at in
    let excess = length all - outbound_weather_soft_max in
    (r'.items ≡ drop excess all) × (r'.dropped ≡ r.dropped + excess)

push_front-Restored :
    (r : OutboundRing) (reqs : List WeatherRequest) (at : Instant)
    → Restored r reqs at (push_front r reqs at)
unfolding push_front prune
push_front-Restored r [] at = refl
push_front-Restored r (req ∷ reqs) at =
    enforce_soft_max-drop (prune (record r { items = (req ∷ reqs) ++ r.items }) at)

-- the time is that of the flush, or one at which the post of the attempt was asked for or done
abbrev pub IsStopTime : Instant → Attempt → Instant → Type 0
IsStopTime now a at = (at ≡ now) ⊎ ((at ≡ a.asked) ⊎ (at ≡ a.done))

-- From `m` to `n` the first `done` requests of `ready` were settled by posts, in order, and the
-- others were put back when the next attempt, counted from `i`, stopped the flush.
pub record Kept (env : ℕ → Attempt) (now : Instant) (i : ℕ) (m : Manager)
    (ready : List WeatherRequest) (n : Manager) : Type 0 where
  pub done : ℕ
  pub at : Instant
  pub log : Log
  pub logged : n.sent ≡ m.sent ++ log
  pub settles : settled_of log ≡ take done ready
  pub stops : IsStopTime now (env (i + done)) at
  pub restores : Restored m.ring (drop done ready) at n.ring

ring-handle :
    (m : Manager) (id : String) (req : WeatherRequest) (err : WeatherErr) (now : Instant)
    → ((handle_weather_post_err m id req err false now).ring ≡ m.ring)
      × ((handle_weather_post_err m id req err false now).sent ≡ m.sent)
unfolding handle_weather_post_err set_reason
ring-handle m id req err now = ground arith

module _ (env : ℕ → Attempt) (now : Instant) where
  Kept-nil : (i : ℕ) (m : Manager) → Kept env now i m [] m
  Kept-nil i m = record {
    done = 0;
    at = now;
    log = [];
    logged = sym (append-nil m.sent);
    settles = refl;
    stops = inl refl;
    restores = refl;
  }

  Kept-stop :
      (i : ℕ) (m n : Manager) (ready : List WeatherRequest) (at : Instant) (log : Log)
      → n.sent ≡ m.sent ++ log
      → settled_of log ≡ []
      → IsStopTime now (env i) at
      → n.ring ≡ push_front m.ring ready at
      → Kept env now i m ready n
  Kept-stop i m n ready at log p q t r =
      let same : i ≡ i + 0 = omega arith in
      record {
        done = 0;
        at = at;
        log = log;
        logged = p;
        settles = q;
        stops = subst (λ j. IsStopTime now (env j) at) same t;
        restores = subst (Restored m.ring ready at) (sym r) (push_front-Restored m.ring ready at);
      }

  Kept-next :
      (i : ℕ) (m m1 n : Manager) (req : WeatherRequest) (rest : List WeatherRequest)
      (result : Option WeatherErr)
      → m1.ring ≡ m.ring
      → m1.sent ≡ m.sent ++ ((req, result) ∷ [])
      → settled result ≡ true
      → Kept env now (suc i) m1 rest n
      → Kept env now i m (req ∷ rest) n
  Kept-next i m m1 n req rest result p q s k =
      let same : suc i + k.done ≡ i + suc k.done = omega arith in
      record {
        done = suc k.done;
        at = k.at;
        log = (req, result) ∷ k.log;
        logged = k.logged ∙ ap (λ l. l ++ k.log) q ∙ append_assoc m.sent ((req, result) ∷ []) k.log;
        settles = rw s (ap (λ l. req ∷ l) k.settles);
        stops = subst (λ j. IsStopTime now (env j) k.at) same k.stops;
        restores = subst (λ r. Restored r (drop k.done rest) k.at n.ring) p k.restores;
      }

  after_post-Kept :
      (i : ℕ) (continue : Manager → Manager) (m : Manager) (req : WeatherRequest)
      (rest : List WeatherRequest) (result : Option WeatherErr) (done : Instant)
      → done ≡ (env i).done
      → ((m1 : Manager) → Kept env now (suc i) m1 rest (continue m1))
      → Kept env now i m
          (req ∷ rest)
          (after_post continue (post m req result done) req rest result done)
  unfolding after_post post restore note_weather_post_ok
  after_post-Kept i continue m req rest none done d ih =
      Kept-next i m _ _ req rest none refl refl refl (ih _)
  after_post-Kept i continue m req rest (some err) done d ih =
      let m1 = post m req (some err) done in
      let noted = handle_weather_post_err m1 req.source_id req err false done in
      let same = ring-handle m1 req.source_id req err done in
      let log : Log = (req, some err) ∷ [] in
      elim (Bool-cases err.canceled) [
        | inl c ↦ simp c (Kept-stop i m _ (req ∷ rest) done log refl (simp c) (inr (inr d)) refl)
        | inr c ↦ elim (Bool-cases (is_permanent_weather_err (some err))) [
          | inl p ↦
              simp (c, p)
                (Kept-next i m noted _ req rest (some err) same.0 same.1 (simp (c, p)) (ih noted))
          | inr p ↦
              simp (c, p)
                (Kept-stop i m _ (req ∷ rest) done log same.1 (simp (c, p)) (inr (inr d))
                  (ap (λ r. push_front r (req ∷ rest) done) same.0))
        ]
      ]

  Kept-uplink :
      (i : ℕ) (m : Manager) (u : WeatherUplink) (ready : List WeatherRequest) (n : Manager)
      → Kept env now i (record m { uplink = u }) ready n
      → Kept env now i m ready n
  Kept-uplink i m u ready n k = record {
    done = k.done;
    at = k.at;
    log = k.log;
    logged = k.logged;
    settles = k.settles;
    stops = k.stops;
    restores = k.restores;
  }

  refused-Kept :
      (i : ℕ) (m : Manager) (u : WeatherUplink) (ready : List WeatherRequest) (at : Instant)
      → IsStopTime now (env i) at
      → Kept env now i m ready (restore (record m { uplink = u }) ready at)
  unfolding restore
  refused-Kept i m u ready at t = Kept-stop i m _ ready at [] (sym (append-nil m.sent)) refl t refl

  flush_loop-Kept :
      (i : ℕ) (ready : List WeatherRequest) (m : Manager)
      → Kept env now i m ready (flush_loop env i ready m)
  unfolding flush_loop
  flush_loop-Kept i [] m = Kept-nil i m
  flush_loop-Kept i (req ∷ rest) m =
      let a = env i in
      let ask = if i == 0 then (m.uplink, true) else allow_attempt m.uplink a.asked in
      elim (Bool-cases ask.1) [
        | inl e ↦ rw e (
            Kept-uplink i m ask.0 (req ∷ rest) _ (
              after_post-Kept i (flush_loop env (suc i) rest) (record m { uplink = ask.0 }) req rest
                a.result a.done refl (flush_loop-Kept (suc i) rest)))
        | inr e ↦ rw e (refused-Kept i m ask.0 (req ∷ rest) a.asked (inr (inl refl)))
      ]

  flush_ready-Kept :
      (ready : List WeatherRequest) (m : Manager)
      → Kept env now 0 m ready (flush_ready env now ready m)
  unfolding flush_ready
  flush_ready-Kept [] m = Kept-nil 0 m
  flush_ready-Kept (req ∷ rest) m =
      let ask = allow_attempt m.uplink now in
      elim (Bool-cases ask.1) [
        | inl e ↦ rw e (
            Kept-uplink 0 m ask.0 (req ∷ rest) _
              (flush_loop-Kept 0 (req ∷ rest) (record m { uplink = ask.0 })))
        | inr e ↦ rw e (refused-Kept 0 m ask.0 (req ∷ rest) now (inl refl))
      ]

-- A flush that is configured and due takes what `pop_ready` gives; a first part of that was posted and
-- settled, in order, and the whole remaining part is put back before what is in the ring, at the time at
-- which the flush stopped, whatever the breaker answers and the posts return. Of all these the ring then
-- keeps those that may still be sent at that time, up to the soft maximum the newest. A flush that is not
-- configured or not due does nothing.
pub flush_ring_keeps :
    (configured : Bool) (env : ℕ → Attempt) (now : Instant) (m : Manager)
    → let popped = pop_ready m.ring m.last_catchup_post now global_min_poll_interval in
      ((configured && probe_due m.uplink now) ≡ true
        → Kept env now 0 (record m { ring = popped.0 }) popped.1 (flush_ring configured env now m))
      × ((configured && probe_due m.uplink now) ≡ false → flush_ring configured env now m ≡ m)
unfolding flush_ring
flush_ring_keeps false env now m = (λ h. absurd (cc h), λ h. refl)
flush_ring_keeps true env now m =
    let popped = pop_ready m.ring m.last_catchup_post now global_min_poll_interval in
    (λ h. rw h (flush_ready-Kept env now popped.1 (record m { ring = popped.0 })), λ h. rw h)
