-- ===== src/Scheduler/Orchestrator/Raising.antt =====
-- How many pending captures a raised limit wakes.
use aviationwx_bridge.Prelude.{
  Bool-cases, Instant, Option, [], ap, arith, fun_ext, inl, inr, none, refl, some, suc, true, zero,
  ℕ, ◌-◌, ◌<◌, ◌∷◌, ◌≡◌,
}
use aviationwx_bridge.Queue.Names.{Name, name_eq}
use aviationwx_bridge.Queue.Names.Table.{Table, find}
use aviationwx_bridge.Queue.State.{Queue}
use aviationwx_bridge.Queue.Manager.{get_queue}
use aviationwx_bridge.Scheduler.Orchestrator.{Orchestrator, Worker}
use aviationwx_bridge.Scheduler.Orchestrator.Waking.{
  can_wake, change_worker, clamp_captures, first_eligible, insert_name, is_eligible, limited,
  notify_capture_gate_released, notify_times, set_max_concurrent_captures, sorted_ids, wake_worker,
}

abbrev fill : Worker → Worker
fill w = record w { wake = true }

fill_twice :
    (id : Name) (ps : Table Worker)
    → change_worker id fill (change_worker id fill ps) ≡ change_worker id fill ps
fill_twice id [] = refl
fill_twice id (p ∷ ps) = elim (Bool-cases (name_eq p.0 id)) [
  | inl e ↦ rw (e, e) (ap (λ t. (p.0, fill p.1) ∷ t) (fill_twice id ps))
  | inr e ↦ rw (e, e) (ap (λ t. p ∷ t) (fill_twice id ps))
]

fill-sorted_ids :
    (id : Name) (ps : Table Worker) → sorted_ids (change_worker id fill ps) ≡ sorted_ids ps
fill-sorted_ids id [] = refl
fill-sorted_ids id (p ∷ ps) = elim (Bool-cases (name_eq p.0 id)) [
  | inl e ↦ rw e (ap (insert_name p.0) (fill-sorted_ids id ps))
  | inr e ↦ rw e (ap (insert_name p.0) (fill-sorted_ids id ps))
]

fill-can_wake :
    (now : Instant) (q : Option Queue) (id other : Name) (ps : Table Worker)
    → can_wake now q (find other (change_worker id fill ps)) ≡ can_wake now q (find other ps)
fill-can_wake now q id other [] = refl
fill-can_wake now q id other (p ∷ ps) =
    let ih = fill-can_wake now q id other ps in
    elim (Bool-cases (name_eq p.0 id)) [
      | inl e ↦ elim (Bool-cases (name_eq p.0 other)) [
        | inl f ↦ rw (e, f) refl
        | inr f ↦ rw (e, f) ih
      ]
      | inr e ↦ elim (Bool-cases (name_eq p.0 other)) [
        | inl f ↦ rw (e, f) refl
        | inr f ↦ rw (e, f) ih
      ]
    ]

-- the worker that was woken does not change who is woken next
woken_again :
    (now : Instant) (o : Orchestrator) (found : Option Name)
    → first_eligible (is_eligible now o) (sorted_ids o.capture_workers) ≡ found
    → notify_capture_gate_released now (wake_worker found o) ≡ wake_worker found o
unfolding notify_capture_gate_released
woken_again now o none h = rw h refl
woken_again now o (some id) h =
    let same : is_eligible now (wake_worker (some id) o) ≡ is_eligible now o =
      fun_ext
        (λ other. fill-can_wake now (get_queue other o.queue_manager) id other o.capture_workers) in
    rw (fill-sorted_ids id o.capture_workers, same, h)
      (ap (λ t. record o { capture_workers = t }) (fill_twice id o.capture_workers))

notify_twice :
    (now : Instant) (o : Orchestrator)
    → notify_capture_gate_released now (notify_capture_gate_released now o)
      ≡ notify_capture_gate_released now o
unfolding notify_capture_gate_released
notify_twice now o =
    woken_again now o (first_eligible (is_eligible now o) (sorted_ids o.capture_workers)) refl

notify_times-once :
    (k : ℕ) (now : Instant) (o : Orchestrator)
    → notify_times k now (notify_capture_gate_released now o) ≡ notify_capture_gate_released now o
unfolding notify_times
notify_times-once zero now o = refl
notify_times-once (suc k) now o = rw (notify_twice now o) (notify_times-once k now o)

some_times :
    (k : ℕ) (now : Instant) (o : Orchestrator)
    → 0 < k
    → notify_times k now o ≡ notify_capture_gate_released now o
unfolding notify_times
some_times zero now o h = elim h [ ]
some_times (suc k) now o h = notify_times-once k now o

-- However far the limit is raised, at most one pending capture is woken, as by a single free slot, where
-- no worker starts between the rounds of the loop and they see one time: they all choose the same worker.
pub set_max_concurrent_captures_wakes_one :
    (now : Instant) (n : ℕ) (o : Orchestrator)
    → o.capture_gate.limit < clamp_captures n
    → set_max_concurrent_captures now n o
      ≡ notify_capture_gate_released now (limited (clamp_captures n) o)
unfolding set_max_concurrent_captures
set_max_concurrent_captures_wakes_one now n o h =
    some_times (clamp_captures n - o.capture_gate.limit) now (limited (clamp_captures n) o)
      (omega arith)
