-- ===== src/Scheduler/Orchestrator/Wakes.antt =====
-- Which pending capture is woken, and how many when the limit is raised.
use aviationwx_bridge.Prelude.{
  All, All-weaken, Bool, Bool-cases, Instant, List, Option, [], arith, false, inl, inr, none, refl,
  some, subst, true, ◌∷◌, ◌≡◌, ◌⊎◌,
}
use aviationwx_bridge.Queue.Names.{Name, is_some, name_eq, name_lt}
use aviationwx_bridge.Queue.Names.RoundTrip.{name_eq_sound}
use aviationwx_bridge.Queue.Names.Table.{Table, find}
use aviationwx_bridge.Queue.Disk.Listing.{name_ge_trans, name_lt_asym}
use aviationwx_bridge.Queue.State.{Queue}
use aviationwx_bridge.Queue.Manager.{get_queue}
use aviationwx_bridge.Scheduler.Orchestrator.{Orchestrator, Worker}
use aviationwx_bridge.Scheduler.Orchestrator.Waking.{
  can_wake, first_eligible, insert_name, is_eligible, notify_capture_gate_released, sorted_ids,
  wake_worker,
}

abbrev IsSortedNames : List Name → Type 0
IsSortedNames [] = Unit
IsSortedNames (n ∷ ms) = All (λ m. name_lt m n ≡ false) ms × IsSortedNames ms

name_lt_irrefl : (n : Name) → name_lt n n ≡ false
name_lt_irrefl [] = refl
name_lt_irrefl (a ∷ s) = ground (arith, name_lt_irrefl s)

module _ (P : Name → Type 0) where
  insert_name-All : (n : Name) (ms : List Name) → P n → All P ms → All P (insert_name n ms)
  insert_name-All n [] p h = (p, tt)
  insert_name-All n (m ∷ ms) p h = elim (Bool-cases (name_lt m n)) [
    | inl e ↦ rw e (h.0, insert_name-All n ms p h.1)
    | inr e ↦ rw e (p, h)
  ]

  All-insert_name : (n : Name) (ms : List Name) → All P (insert_name n ms) → P n × All P ms
  All-insert_name n [] h = h
  All-insert_name n (m ∷ ms) h = elim (Bool-cases (name_lt m n)) [
    | inl e ↦
        let k : P m × All P (insert_name n ms) = rw e at h in
        let ih = All-insert_name n ms k.1 in (ih.0, (k.0, ih.1))
    | inr e ↦ rw e at h
  ]

  -- what holds of the sorted ids holds of every id that is there
  sorted_ids-member :
      (ps : Table Worker) (id : Name) → All P (sorted_ids ps) → is_some (find id ps) ≡ true → P id
  sorted_ids-member [] id h f = absurd (cc f)
  sorted_ids-member (p ∷ ps) id h f =
      let k = All-insert_name p.0 (sorted_ids ps) h in
      elim (Bool-cases (name_eq p.0 id)) [
        | inl e ↦ subst P (name_eq_sound p.0 id e) k.0
        | inr e ↦ sorted_ids-member ps id k.1 (rw e at f)
      ]

insert_name-IsSortedNames :
    (n : Name) (ms : List Name) → IsSortedNames ms → IsSortedNames (insert_name n ms)
insert_name-IsSortedNames n [] h = (tt, tt)
insert_name-IsSortedNames n (m ∷ ms) h = elim (Bool-cases (name_lt m n)) [
  | inl e ↦ rw e (
    insert_name-All (λ x. name_lt x m ≡ false) n ms (name_lt_asym m n e) h.0,
    insert_name-IsSortedNames n ms h.1,
  )
  | inr e ↦ rw e ((e, All-weaken ms (λ x k. name_ge_trans n m x e k) h.0), h)
]

sorted_ids-IsSortedNames : (ps : Table Worker) → IsSortedNames (sorted_ids ps)
sorted_ids-IsSortedNames [] = tt
sorted_ids-IsSortedNames (p ∷ ps) =
    insert_name-IsSortedNames p.0 (sorted_ids ps) (sorted_ids-IsSortedNames ps)

-- what the loop over the sorted ids finds
abbrev IsFirst : (Name → Bool) → List Name → Option Name → Type 0
IsFirst eligible ids none = All (λ m. eligible m ≡ false) ids
IsFirst eligible ids (some id) =
    (eligible id ≡ true) × All (λ m. eligible m ≡ true → name_lt m id ≡ false) ids

IsFirst-cons :
    (eligible : Name → Bool) (n : Name) (ms : List Name) (o : Option Name)
    → eligible n ≡ false
    → IsFirst eligible ms o
    → IsFirst eligible (n ∷ ms) o
IsFirst-cons eligible n ms none e h = (e, h)
IsFirst-cons eligible n ms (some id) e h = (h.0, ((λ k. absurd (cc (e, k))), h.1))

first_eligible-IsFirst :
    (eligible : Name → Bool) (ids : List Name)
    → IsSortedNames ids
    → IsFirst eligible ids (first_eligible eligible ids)
unfolding first_eligible
first_eligible-IsFirst eligible [] h = tt
first_eligible-IsFirst eligible (n ∷ ms) h = elim (Bool-cases (eligible n)) [
  | inl e ↦ rw e (e, ((λ k. name_lt_irrefl n), All-weaken ms (λ m q k. q) h.0))
  | inr e ↦ rw e (
      IsFirst-cons eligible n ms (first_eligible eligible ms) e
        (first_eligible-IsFirst eligible ms h.1))
]

-- an eligible id has a worker
can_wake-member :
    (now : Instant) (q : Option Queue) (w : Option Worker)
    → can_wake now q w ≡ true
    → is_some w ≡ true
can_wake-member now q none h = absurd (cc h)
can_wake-member now q (some w) h = refl

-- The one whom a free slot wakes: none if no worker can run a pending capture now, and otherwise the
-- one of the smallest id among them; nothing else changes.
abbrev pub WakesFirst : Instant → Orchestrator → Orchestrator → Type 0
WakesFirst now o r =
    (((id : Name) → is_eligible now o id ≡ false) × (r ≡ o))
    ⊎ ((id : Name) × (is_eligible now o id ≡ true)
        × ((other : Name) → is_eligible now o other ≡ true → name_lt other id ≡ false)
        × (r ≡ wake_worker (some id) o))

wakes :
    (now : Instant) (o : Orchestrator) (found : Option Name)
    → IsFirst (is_eligible now o) (sorted_ids o.capture_workers) found
    → WakesFirst now o (wake_worker found o)
wakes now o none h = inl (
  λ id. elim (Bool-cases (is_eligible now o id)) [
    | inr e ↦ e
    | inl e ↦
        sorted_ids-member (λ m. is_eligible now o m ≡ false) o.capture_workers id h
          (can_wake-member now (get_queue id o.queue_manager) (find id o.capture_workers) e)
  ],
  refl,
)
wakes now o (some id) h = inr (
  id,
  h.0,
  λ other e.
      sorted_ids-member (λ m. is_eligible now o m ≡ true → name_lt m id ≡ false) o.capture_workers
        other h.1
        (can_wake-member now (get_queue other o.queue_manager) (find other o.capture_workers) e) e,
  refl,
)

-- A slot that gets free wakes no worker if none can run a pending capture now, and otherwise exactly the
-- one with the smallest id among those that can; nothing else changes.
pub notify_capture_gate_released_lem :
    (now : Instant) (o : Orchestrator) → WakesFirst now o (notify_capture_gate_released now o)
unfolding notify_capture_gate_released
notify_capture_gate_released_lem now o =
    wakes now o (first_eligible (is_eligible now o) (sorted_ids o.capture_workers)) (
      first_eligible-IsFirst (is_eligible now o) (sorted_ids o.capture_workers)
        (sorted_ids-IsSortedNames o.capture_workers))
