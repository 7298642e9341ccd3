-- ===== src/Scheduler/Capture/Job.antt =====
-- What a capture does, and when the loop starts one.
use aviationwx_bridge.Prelude.{
  Bool, Bool-cases, Instant, Option, ap, arith, before, false, inl, inr, ltb, none, not, refl, some,
  subst, true, ℕ, ◌+◌, ◌-◌, ◌<◌, ◌||◌, ◌≡◌, ◌≤◌, ◌⊎◌,
}
use aviationwx_bridge.Queue.State.{Queue}
use aviationwx_bridge.Queue.Intake.{EnqueueError, enqueue}
use aviationwx_bridge.Queue.Outcome.{Meaning, enqueue_lem}
use aviationwx_bridge.Queue.Tracking.{Tracks}
use aviationwx_bridge.Scheduler.Gate.{CaptureGate, release, try_acquire}
use aviationwx_bridge.Scheduler.Backoff.{CameraState, handle_capture_error, handle_capture_success}
use aviationwx_bridge.Scheduler.Capture.{
  CameraAnswer, CaptureEnv, CaptureWorker, after_enqueue, begin_capture, camera_error, capture,
  capture_job, count_unstamped, end_capture, final_size, observe, on_tick, on_wake, picture,
  take_picture, through_gate, use_answer,
}

-- the camera's state by the result of the enqueue
abbrev pub IsNoted : Instant → CameraState → CameraState → Option EnqueueError → Type 0
IsNoted now s r none = r ≡ handle_capture_success now s
IsNoted now s r (some e) = r ≡ s

-- what a job leaves, by the answer of the camera
abbrev pub Taken : CaptureEnv → CameraAnswer → CaptureWorker → CaptureWorker → Type 0
Taken env (camera_error e draw) w r =
    (r.queue ≡ w.queue)
    × (r.captures_failed ≡ w.captures_failed + 1)
    × (r.state ≡ handle_capture_error env.now draw e w.state)
Taken env (picture size) w r =
    let e =
      enqueue env.disk env.write_env (final_size env size) (observe env).time env.now w.queue in
    (r.queue ≡ e.0)
    × Meaning (final_size env size) w.queue e.0 e.1
    × IsNoted env.now w.state r.state e.1
    × (r.captures_failed ≡ w.captures_failed)

after_enqueue-Noted :
    (now : Instant) (w v : CaptureWorker) (r : Queue × Option EnqueueError)
    → v.state ≡ w.state
    → v.captures_failed ≡ w.captures_failed
    → let n = after_enqueue now v r in
      (n.queue ≡ r.0) × IsNoted now w.state n.state r.1 × (n.captures_failed ≡ w.captures_failed)
after_enqueue-Noted now w v (q, none) s f = (refl, ap (λ x. handle_capture_success now x) s, f)
after_enqueue-Noted now w v (q, some e) s f = (refl, s, f)

unstamped_same :
    (o : Option ℕ) (w : CaptureWorker)
    → ((count_unstamped o w).state ≡ w.state)
      × ((count_unstamped o w).captures_failed ≡ w.captures_failed)
unstamped_same none w = (refl, refl)
unstamped_same (some n) w = (refl, refl)

use_answer-Taken :
    (env : CaptureEnv) (a : CameraAnswer) (w : CaptureWorker)
    → Tracks w.queue
    → Taken env a w (use_answer env a w)
unfolding take_picture
use_answer-Taken env (camera_error e draw) w t = (refl, refl, refl)
use_answer-Taken env (picture size) w t =
    let same = unstamped_same env.stamped w in
    let r =
      enqueue env.disk env.write_env (final_size env size) (observe env).time env.now w.queue in
    let noted = after_enqueue-Noted env.now w (count_unstamped env.stamped w) r same.0 same.1 in
    (
      noted.0,
      enqueue_lem env.disk env.write_env (final_size env size) (observe env).time env.now w.queue t,
      noted.1,
      noted.2,
    )

-- a slot that is taken and given back, or was not free
try_acquire_lem :
    (gate : CaptureGate)
    → ((try_acquire gate).1 ≡ ltb gate.in_use gate.limit)
      × ((try_acquire gate).1 ≡ true → (release (try_acquire gate).0).in_use ≡ gate.in_use)
      × ((try_acquire gate).1 ≡ false → (try_acquire gate).0.in_use ≡ gate.in_use)
unfolding try_acquire release
try_acquire_lem gate = ground arith

Taken-ends :
    (env : CaptureEnv) (a : CameraAnswer) (w r : CaptureWorker)
    → Taken env a (begin_capture w) r
    → Taken env a w (end_capture env.now r)
Taken-ends env (camera_error e draw) w r h = h
Taken-ends env (picture size) w r h = h

-- what a capture that ran leaves
abbrev pub Captured : CaptureEnv → CaptureWorker → CaptureWorker → Type 0
Captured env w r =
    Taken env env.answer w r × (r.currently_capturing ≡ false) × (r.last_capture_time ≡ env.now)

job-Captured :
    (env : CaptureEnv) (w : CaptureWorker)
    → Tracks w.queue
    → env.throttled_out ≡ false
    → Captured env w (end_capture env.now (capture_job env (begin_capture w)))
unfolding capture_job
job-Captured env w t h =
    let taken =
      Taken-ends env env.answer w (use_answer env env.answer (begin_capture w))
        (use_answer-Taken env env.answer (begin_capture w) t) in
    simp h (taken, refl, refl)

-- the result of a capture by whether it ran
abbrev pub Ran : Bool → CaptureEnv → CaptureWorker → CaptureWorker → Type 0
Ran true env w r = Captured env w r
Ran false env w r = r ≡ record w { pending_capture = true }

through_gate-Ran :
    (env : CaptureEnv) (gated : Bool) (r : CaptureGate × Bool) (gate : CaptureGate)
    (after_job w : CaptureWorker)
    → r.1 ≡ ltb gate.in_use gate.limit
    → (r.1 ≡ true → (release r.0).in_use ≡ gate.in_use)
    → (r.1 ≡ false → r.0.in_use ≡ gate.in_use)
    → Captured env w after_job
    → ((through_gate gated r gate after_job w).0.in_use ≡ gate.in_use)
      × Ran
          (not gated || ltb gate.in_use gate.limit)
          env
          w
          (through_gate gated r gate after_job w).1
through_gate-Ran env false (g, b) gate after_job w e k s ran = (refl, ran)
through_gate-Ran env true (g, true) gate after_job w e k s ran =
    (k refl, subst (λ b. Ran b env w after_job) e ran)
through_gate-Ran env true (g, false) gate after_job w e k s ran =
    (s refl, subst (λ b. Ran b env w (record w { pending_capture = true })) e refl)

-- A capture that no pressure cuts short gives back the slot of the gate that it took. It runs exactly
-- if there is no gate or the gate has a free slot, and otherwise only leaves one capture pending. If it
-- runs and the camera fails, the queue is as before and one failure is counted; if the camera gives an
-- image, the queue is the one after its enqueue at the time that the clock chooses, with what the
-- result of that means for it, and the camera's state is reset by a success and as before at an error. The counters of the queue agree with its
-- directory.
pub capture_lem :
    (env : CaptureEnv) (gate : CaptureGate) (w : CaptureWorker)
    → Tracks w.queue
    → env.throttled_out ≡ false
    → let r = capture env gate w in
      (r.0.in_use ≡ gate.in_use) × Ran (not w.gated || ltb gate.in_use gate.limit) env w r.1
unfolding capture
capture_lem env gate w t h =
    let slot = try_acquire_lem gate in
    through_gate-Ran env w.gated (try_acquire gate) gate
      (end_capture env.now (capture_job env (begin_capture w))) w slot.0 slot.1 slot.2
      (job-Captured env w t h)

-- the conditions of the loop
abbrev pub IsReady : Instant → CaptureWorker → Type 0
IsReady at_time w =
    (w.currently_capturing ≡ false)
    × (w.queue.capture_paused ≡ false)
    × (w.state.next_attempt ≤ at_time)

-- Neither a tick nor a wake starts a capture while one runs, while the queue has paused capture, or
-- before the next attempt that a backoff allows: otherwise the count of the captures stays, and a wake
-- that comes before the next attempt asks for another one at that time and frees the ticker.
pub on_event_waits :
    (env : CaptureEnv) (at_time : Instant) (gate : CaptureGate) (w : CaptureWorker)
    → (((on_tick env at_time gate w).worker.captures_total ≡ w.captures_total) ⊎ IsReady at_time w)
      × (((on_wake env at_time gate w).worker.captures_total ≡ w.captures_total)
          ⊎ IsReady at_time w)
      × (w.currently_capturing ≡ false
          → w.queue.capture_paused ≡ false
          → at_time < w.state.next_attempt
          → ((on_wake env at_time gate w).worker.pending_capture ≡ false)
            × ((on_wake env at_time gate w).wake_after ≡ some (w.state.next_attempt - at_time)))
unfolding on_tick on_wake
on_event_waits env at_time gate w = elim (Bool-cases w.currently_capturing) [
  | inl a ↦ simp a (inl refl, inl refl, λ x. absurd (cc x))
  | inr a ↦ elim (Bool-cases w.queue.capture_paused) [
    | inl b ↦ simp (a, b) (inl refl, inl refl, λ x y. absurd (cc y))
    | inr b ↦ elim (Bool-cases (before at_time w.state.next_attempt)) [
      | inl c ↦ simp (a, b, c) (inl refl, inl refl, λ x y z. (refl, refl))
      | inr c ↦
          let ready : w.state.next_attempt ≤ at_time = ground arith in
          simp (a, b, c)
            (inr (refl, refl, ready), inr (refl, refl, ready), λ x y z. absurd (omega arith))
    ]
  ]
]
