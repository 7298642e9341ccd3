-- ===== src/Scheduler/Gate.antt =====
-- internal/scheduler/capture_gate.go: the gate that bounds how many captures run at once.
pub mod Bounds
use aviationwx_bridge.Prelude.{Bool, false, if◌then◌else◌, ltb, true, ℕ, ◌+◌, ◌-◌, ◌<◌, ◌≡◌}

pub record CaptureGate : Type 0 where
  pub limit : ℕ
  pub in_use : ℕ

-- `NewCaptureGate`; a limit below 1 is 1 (the source's `int` may also be negative).
unfoldable pub new_capture_gate : ℕ → CaptureGate
new_capture_gate limit = record { limit = if ltb limit 1 then 1 else limit; in_use = 0 }

unfoldable pub try_acquire : CaptureGate → CaptureGate × Bool
try_acquire g =
    if ltb g.in_use g.limit then (record g { in_use = g.in_use + 1 }, true) else (g, false)

unfoldable pub release : CaptureGate → CaptureGate
release g = if ltb 0 g.in_use then record g { in_use = g.in_use - 1 } else g

unfoldable pub set_limit : CaptureGate → ℕ → CaptureGate
set_limit g n = record g { limit = if ltb n 1 then 1 else n }

-- The gate together with the captures in flight: a worker holds a slot from an acquire that
-- succeeds to its own deferred `Release`, and the limit may change in between.
pub record World : Type 0 where
  pub gate : CaptureGate
  pub captures : ℕ

-- `capture` of capture.go acquires before the job and releases after it.
pub data Step : World → World → Type 0 where
  begin :
      (w : World)
      → (try_acquire w.gate).1 ≡ true
      → Step w (record { gate = (try_acquire w.gate).0; captures = w.captures + 1 })
  defer_capture :
      (w : World)
      → (try_acquire w.gate).1 ≡ false
      → Step w (record w { gate = (try_acquire w.gate).0 })
  finish :
      (w : World)
      → 0 < w.captures
      → Step w (record { gate = release w.gate; captures = w.captures - 1 })
  limit_to : (w : World) (n : ℕ) → Step w (record w { gate = set_limit w.gate n })

pub data Reach (s : World) : World → Type 0 where
  here : Reach s s
  next : {t u : World} → Reach s t → Step t u → Reach s u

unfoldable pub start : ℕ → World
start n = record { gate = new_capture_gate n; captures = 0 }
