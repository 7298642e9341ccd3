-- ===== src/Scheduler/Orchestrator/Waking.antt =====
-- The wake of a pending capture when a slot of the gate is free, the capture limit, and the events of
-- the capture workers, which share the gate and the queues.
use aviationwx_bridge.Prelude.{
  Bool, Instant, List, Option, [], false, if◌then◌else◌, ltb, none, some, suc, true, zero, ℕ, ◌-◌,
  ◌∷◌,
}
use aviationwx_bridge.Queue.Names.{Name, name_eq, name_lt}
use aviationwx_bridge.Queue.Names.Table.{Table, find}
use aviationwx_bridge.Queue.State.{Queue}
use aviationwx_bridge.Queue.Manager.{each, get_queue}
use aviationwx_bridge.Scheduler.Gate.{CaptureGate, set_limit}
use aviationwx_bridge.Scheduler.Capture.{
  CaptureEnv, CaptureWorker, LoopResult, eligible_for_pending_gate_wake, on_tick, on_wake,
}
use aviationwx_bridge.Scheduler.Orchestrator.{Orchestrator, Worker, max_concurrent_captures_cap}

-- sort.Strings
abbrev pub insert_name : Name → List Name → List Name
insert_name n [] = n ∷ []
insert_name n (m ∷ ms) = let rest = insert_name n ms in if name_lt m n then m ∷ rest else n ∷ m ∷ ms

abbrev pub sorted_ids : Table Worker → List Name
sorted_ids [] = []
sorted_ids (p ∷ ps) = insert_name p.0 (sorted_ids ps)

-- the worker with the queue that it shares
abbrev pub with_shared : Option Queue → CaptureWorker → CaptureWorker
with_shared none w = w
with_shared (some q) w = record w { queue = q }

abbrev pub can_wake : Instant → Option Queue → Option Worker → Bool
can_wake now q none = false
can_wake now q (some w) = eligible_for_pending_gate_wake now (with_shared q w.capture)

-- a worker that has a capture pending and can run it now
abbrev pub is_eligible : Instant → Orchestrator → Name → Bool
is_eligible now o id = can_wake now (get_queue id o.queue_manager) (find id o.capture_workers)

-- the loop over the sorted ids
unfoldable pub first_eligible : (Name → Bool) → List Name → Option Name
first_eligible eligible [] = none
first_eligible eligible (id ∷ ids) =
    let rest = first_eligible eligible ids in if eligible id then some id else rest

-- an assignment through a key that is there
abbrev pub change_worker : Name → (Worker → Worker) → Table Worker → Table Worker
change_worker id f [] = []
change_worker id f (p ∷ ps) =
    let rest = change_worker id f ps in if name_eq p.0 id then (p.0, f p.1) ∷ rest else p ∷ rest

-- the send that does not block
abbrev pub wake_worker : Option Name → Orchestrator → Orchestrator
wake_worker none o = o
wake_worker (some id) o = record o {
  capture_workers = change_worker id (λ w. record w { wake = true }) o.capture_workers;
}

-- `notifyCaptureGateReleased`
unfoldable pub notify_capture_gate_released : Instant → Orchestrator → Orchestrator
notify_capture_gate_released now o =
    wake_worker (first_eligible (is_eligible now o) (sorted_ids o.capture_workers)) o

unfoldable pub notify_times : ℕ → Instant → Orchestrator → Orchestrator
notify_times zero now o = o
notify_times (suc k) now o = notify_times k now (notify_capture_gate_released now o)

abbrev pub clamp_captures : ℕ → ℕ
clamp_captures n =
    if ltb n 1
    then 1
    else if ltb max_concurrent_captures_cap n
    then max_concurrent_captures_cap
    else n

-- the new limit, before anyone is woken
abbrev pub limited : ℕ → Orchestrator → Orchestrator
limited n o = record o {
  config = record o.config { max_concurrent_captures = n };
  capture_gate = set_limit o.capture_gate n;
}

-- `SetMaxConcurrentCaptures`, where nothing happens between its steps, which do not hold the lock
unfoldable pub set_max_concurrent_captures : Instant → ℕ → Orchestrator → Orchestrator
set_max_concurrent_captures now n0 o =
    let n = clamp_captures n0 in notify_times (n - o.capture_gate.limit) now (limited n o)

-- what a worker does on an event goes back to the gate, the worker and the shared queue
abbrev pub put_back : Name → LoopResult → Orchestrator → Orchestrator
put_back id r o = record o {
  capture_gate = r.gate;
  capture_workers = change_worker id (λ w. record w { capture = r.worker }) o.capture_workers;
  queue_manager = record o.queue_manager {
    queues = each (λ i q. if name_eq i id then r.worker.queue else q) o.queue_manager.queues;
  };
}

-- a capture that ran gave its slot back and calls `OnGateReleased`
abbrev pub after_event : Instant → CaptureWorker → LoopResult → Orchestrator → Orchestrator
after_event now w r o =
    if ltb w.captures_total r.worker.captures_total then notify_capture_gate_released now o else o

abbrev pub worker_event :
    Instant
    → (CaptureGate → CaptureWorker → LoopResult)
    → Name
    → Option Worker
    → Orchestrator
    → Orchestrator
worker_event now loop id none o = o
worker_event now loop id (some w) o =
    let shared = with_shared (get_queue id o.queue_manager) w.capture in
    let r = loop o.capture_gate shared in after_event now shared r (put_back id r o)

-- one round of the loop of a worker, on its ticker or on a wake, which empties the channel
unfoldable pub tick_worker : CaptureEnv → Instant → Name → Orchestrator → Orchestrator
tick_worker env now id o = worker_event env.now (on_tick env now) id (find id o.capture_workers) o

unfoldable pub wake_event : CaptureEnv → Instant → Name → Orchestrator → Orchestrator
wake_event env now id o0 =
    let o = record o0 {
      capture_workers = change_worker id (λ w. record w { wake = false }) o0.capture_workers;
    } in
    worker_event env.now (on_wake env now) id (find id o.capture_workers) o
