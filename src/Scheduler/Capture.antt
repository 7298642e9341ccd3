-- ===== src/Scheduler/Capture.antt =====
-- internal/scheduler/capture.go: the worker of one camera. A capture takes a slot of the gate, asks the
-- camera, lets the clock choose the time, and enqueues the image. What the camera, the EXIF tool and
-- the image processor give is the environment's; an image is its size. The loop runs a capture to its
-- end before it reads the next event.
pub mod Job
mod Examples
use aviationwx_bridge.Prelude.{
  Bool, Duration, Instant, Option, before, false, if◌then◌else◌, ltb, minute, none, not, second,
  some, true, ℕ, ◌&&◌, ◌*◌, ◌+◌, ◌-◌,
}
use aviationwx_bridge.Queue.Disk.{Os}
use aviationwx_bridge.Queue.State.{Queue}
use aviationwx_bridge.Queue.Intake.{EnqueueError, WriteEnv, enqueue}
use aviationwx_bridge.Clock.Authority.{
  AuthorityConfig, ObservationResult, bridge_clock, determine_observation_time, high,
}
use aviationwx_bridge.Scheduler.Gate.{CaptureGate, release, try_acquire}
use aviationwx_bridge.Scheduler.Backoff.{CameraState, handle_capture_error, handle_capture_success}

-- `gated` tells whether there is a gate
pub record CaptureWorker : Type 0 where
  pub queue : Queue
  pub state : CameraState
  pub interval : Duration
  pub captures_total : ℕ
  pub captures_failed : ℕ
  pub exif_write_failed : ℕ
  pub next_capture_time : Instant
  pub currently_capturing : Bool
  pub last_capture_time : Instant
  pub gated : Bool
  pub pending_capture : Bool

-- the interval of `NewCaptureWorker`
unfoldable pub capture_interval : ℕ → Duration
capture_interval interval_secs =
    let interval =
      if ltb (interval_secs * second) second then 60 * second else interval_secs * second in
    if ltb (30 * minute) interval then 30 * minute else interval

-- an image of so many bytes, or an error with the draw of its backoff
pub data CameraAnswer : Type 0 where
  picture : ℕ → CameraAnswer
  camera_error : ℕ → ℕ → CameraAnswer

-- `throttled_out`: the job ended while it waited under pressure. `processed` and `stamped` are the
-- sizes after the image processor and the EXIF stamp, none where they fail or are not configured.
pub record CaptureEnv : Type 0 where
  pub throttled_out : Bool
  pub start_time : Instant
  pub answer : CameraAnswer
  pub exif : Option Instant
  pub to_utc : Instant → Instant
  pub authority : Option AuthorityConfig
  pub ntp : Option Bool
  pub processed : Option ℕ
  pub stamped : Option ℕ
  pub disk : Os
  pub write_env : WriteEnv
  pub now : Instant

unfoldable pub observe : CaptureEnv → ObservationResult
observe env = elim env.authority [
  | none ↦ record {
    time = env.start_time;
    source = bridge_clock;
    confidence = high;
    warning = none;
  }
  | some c ↦ determine_observation_time env.to_utc c env.ntp env.start_time env.exif
]

abbrev pub size_or : Option ℕ → ℕ → ℕ
size_or none n = n
size_or (some m) n = m

-- the bytes that are enqueued
abbrev pub final_size : CaptureEnv → ℕ → ℕ
final_size env size = size_or env.stamped (size_or env.processed size)

-- after the enqueue: an error leaves the state of the camera as it was
abbrev pub after_enqueue : Instant → CaptureWorker → Queue × Option EnqueueError → CaptureWorker
after_enqueue now w (q, none) = record w { queue = q; state = handle_capture_success now w.state }
after_enqueue now w (q, some e) = record w { queue = q }

abbrev pub count_unstamped : Option ℕ → CaptureWorker → CaptureWorker
count_unstamped none w = record w { exif_write_failed = w.exif_write_failed + 1 }
count_unstamped (some n) w = w

unfoldable pub take_picture : CaptureEnv → ℕ → CaptureWorker → CaptureWorker
take_picture env size w =
    after_enqueue env.now (count_unstamped env.stamped w)
      (enqueue env.disk env.write_env (final_size env size) (observe env).time env.now w.queue)

abbrev pub use_answer : CaptureEnv → CameraAnswer → CaptureWorker → CaptureWorker
use_answer env (picture size) w = take_picture env size w
use_answer env (camera_error e draw) w = record w {
  captures_failed = w.captures_failed + 1;
  state = handle_capture_error env.now draw e w.state;
}

unfoldable pub capture_job : CaptureEnv → CaptureWorker → CaptureWorker
capture_job env w = if env.throttled_out then w else use_answer env env.answer w

abbrev pub begin_capture : CaptureWorker → CaptureWorker
begin_capture w = record w {
  captures_total = w.captures_total + 1;
  currently_capturing = true;
  pending_capture = if w.gated then false else w.pending_capture;
}

abbrev pub end_capture : Instant → CaptureWorker → CaptureWorker
end_capture now w = record w { currently_capturing = false; last_capture_time = now }

-- the first and the last lines of `capture`: whether there is a gate, and what it answered
abbrev pub through_gate :
    Bool
    → CaptureGate × Bool
    → CaptureGate
    → CaptureWorker
    → CaptureWorker
    → CaptureGate × CaptureWorker
through_gate false (g, b) gate after_job w = (gate, after_job)
through_gate true (g, true) gate after_job w = (release g, after_job)
through_gate true (g, false) gate after_job w = (g, record w { pending_capture = true })

-- `capture`; without a slot it leaves one capture pending
unfoldable pub capture : CaptureEnv → CaptureGate → CaptureWorker → CaptureGate × CaptureWorker
capture env gate w =
    through_gate w.gated (try_acquire gate) gate
      (end_capture env.now (capture_job env (begin_capture w))) w

-- what an event of the loop does: the gate, the worker, and the wake that it asks for
pub record LoopResult : Type 0 where
  pub gate : CaptureGate
  pub worker : CaptureWorker
  pub wake_after : Option Duration

abbrev pub idle_result : CaptureGate → CaptureWorker → LoopResult
idle_result gate w = record { gate = gate; worker = w; wake_after = none }

abbrev pub captured_result : CaptureGate × CaptureWorker → LoopResult
captured_result r = record { gate = r.0; worker = r.1; wake_after = none }

-- the loop of `run` on `wakeCapture`
unfoldable pub on_wake : CaptureEnv → Instant → CaptureGate → CaptureWorker → LoopResult
on_wake env at_time gate w =
    if w.currently_capturing
    then idle_result gate w
    else if w.queue.capture_paused
    then idle_result gate w
    else if before at_time w.state.next_attempt
    then record {
      gate = gate;
      worker = record w { pending_capture = false };
      wake_after = some (w.state.next_attempt - at_time);
    }
    else captured_result (capture env gate w)

-- the loop of `run` on the ticker
unfoldable pub on_tick : CaptureEnv → Instant → CaptureGate → CaptureWorker → LoopResult
on_tick env at_time gate w =
    if w.currently_capturing
    then idle_result gate w
    else if w.queue.capture_paused
    then idle_result gate w
    else if before at_time w.state.next_attempt
    then idle_result gate w
    else if w.gated && w.pending_capture
    then idle_result gate w
    else captured_result (capture env gate (record w { next_capture_time = at_time + w.interval }))

-- `eligibleForPendingGateWake`
unfoldable pub eligible_for_pending_gate_wake : Instant → CaptureWorker → Bool
eligible_for_pending_gate_wake at_time w =
    if not w.pending_capture
    then false
    else if w.currently_capturing
    then false
    else if w.queue.capture_paused
    then false
    else not (before at_time w.state.next_attempt)
