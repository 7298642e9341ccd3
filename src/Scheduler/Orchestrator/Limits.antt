-- ===== src/Scheduler/Orchestrator/Limits.antt =====
-- The capture limit: what it can be, and that no capture changes it.
use aviationwx_bridge.Prelude.{Instant, arith, ℕ, ◌+◌, ◌≡◌, ◌≤◌}
use aviationwx_bridge.Scheduler.Gate.{
  CaptureGate, new_capture_gate, release, set_limit, try_acquire,
}
use aviationwx_bridge.Scheduler.Capture.{CaptureEnv, CaptureWorker, capture, on_tick, on_wake}
use aviationwx_bridge.Scheduler.Orchestrator.{
  Orchestrator, OrchestratorConfig, default_max_concurrent_captures, initial_captures,
  new_orchestrator,
}
use aviationwx_bridge.Scheduler.Orchestrator.Waking.{clamp_captures, limited}
use aviationwx_bridge.Scheduler.Orchestrator.Operations.{IsLimited}

capture_limit :
    (env : CaptureEnv) (g : CaptureGate) (w : CaptureWorker) → (capture env g w).0.limit ≡ g.limit
unfolding capture try_acquire release
capture_limit env g w = ground arith

pub on_tick_limit :
    (env : CaptureEnv) (now : Instant) (g : CaptureGate) (w : CaptureWorker)
    → (on_tick env now g w).gate.limit ≡ g.limit
unfolding on_tick
on_tick_limit env now g w =
    let h = capture_limit env g (record w { next_capture_time = now + w.interval }) in ground arith

pub on_wake_limit :
    (env : CaptureEnv) (now : Instant) (g : CaptureGate) (w : CaptureWorker)
    → (on_wake env now g w).gate.limit ≡ g.limit
unfolding on_wake
on_wake_limit env now g w = let h = capture_limit env g w in ground arith

-- The limit that the hardware suggests is from 1 to 10.
pub default_max_concurrent_captures_bounds :
    (total_mb num_cpu mhz : ℕ)
    → (1 ≤ default_max_concurrent_captures total_mb num_cpu mhz)
      × (default_max_concurrent_captures total_mb num_cpu mhz ≤ 10)
unfolding default_max_concurrent_captures
default_max_concurrent_captures_bounds total_mb num_cpu mhz = ground arith

pub new_orchestrator-IsLimited :
    (profiled authority : ℕ) (c : OrchestratorConfig)
    → 1 ≤ profiled
    → IsLimited
        (new_orchestrator profiled authority c).capture_gate
        (new_orchestrator profiled authority c).config
unfolding new_orchestrator initial_captures new_capture_gate
new_orchestrator-IsLimited profiled authority c h = ground arith

pub limited-IsLimited :
    (n : ℕ) (o : Orchestrator)
    → IsLimited (limited (clamp_captures n) o).capture_gate (limited (clamp_captures n) o).config
unfolding set_limit
limited-IsLimited n o = ground arith
