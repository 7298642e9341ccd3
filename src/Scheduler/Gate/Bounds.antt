-- ===== src/Scheduler/Gate/Bounds.antt =====
-- The captures in flight are the slots taken, whatever the interleaving of the workers.
use aviationwx_bridge.Prelude.{arith, ltb, true, ℕ, ◌+◌, ◌≡◌, ◌≤◌}
use aviationwx_bridge.Scheduler.Gate.{
  Reach, Step, World, begin, defer_capture, finish, here, limit_to, new_capture_gate, next, release,
  set_limit, start, try_acquire,
}

pub record IsCounted (w : World) : Type 0 where
  pub counted : w.gate.in_use ≡ w.captures
  pub positive : 1 ≤ w.gate.limit

start-IsCounted : (n : ℕ) → IsCounted (start n)
unfolding start new_capture_gate
start-IsCounted n = ground arith

Step-IsCounted : {w v : World} → Step w v → IsCounted w → IsCounted v
unfolding try_acquire release set_limit
Step-IsCounted (begin w h) c = ground arith
Step-IsCounted (defer_capture w h) c = ground arith
Step-IsCounted (finish w h) c = ground arith
Step-IsCounted (limit_to w n) c = ground arith

-- From a new gate, after any interleaving of acquires, releases and changes of the limit,
-- the slots in use are exactly the captures in flight and the limit is at least one.
pub Reach-IsCounted : (n : ℕ) {w : World} → Reach (start n) w → IsCounted w
Reach-IsCounted n here = start-IsCounted n
Reach-IsCounted n (next r s) = Step-IsCounted s (Reach-IsCounted n r)

-- In every reachable state an acquire succeeds exactly when fewer captures are in flight than the
-- limit, and one that succeeds leaves at most `limit` captures in flight.
pub try_acquire_exact :
    (n : ℕ) {w : World}
    → Reach (start n) w
    → ((try_acquire w.gate).1 ≡ ltb w.captures w.gate.limit)
      × ((try_acquire w.gate).1 ≡ true
          → (w.captures + 1 ≤ w.gate.limit) × ((try_acquire w.gate).0.in_use ≡ w.captures + 1))
unfolding try_acquire
try_acquire_exact n r = ground (arith, Reach-IsCounted n r)
