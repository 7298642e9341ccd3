-- ===== src/Queue/Manager/Registry.antt =====
-- The registry of queues: creation, removal and lookup by the id of the camera.
use aviationwx_bridge.Prelude.{Option-cases, false, inl, inr, none, refl, some, ◌≡◌}
use aviationwx_bridge.Queue.Names.{Name, is_some, name_eq}
use aviationwx_bridge.Queue.Names.RoundTrip.{name_eq_refl}
use aviationwx_bridge.Queue.Names.Table.{find, find-delete_other, find-delete_self}
use aviationwx_bridge.Queue.Disk.{Dir, Os}
use aviationwx_bridge.Queue.State.{Queue, QueueConfig}
use aviationwx_bridge.Queue.Intake.{new_queue, scan_directory}
use aviationwx_bridge.Queue.Manager.{
  CreateResult, QueueManager, already_exists, create_queue, created, get_queue, remove_queue,
  scan_failed,
}

-- what a lookup of any id finds after a creation
abbrev pub AfterCreate : Name → QueueManager → QueueManager → CreateResult → Type 0
AfterCreate id m r (created q) =
    (get_queue id m ≡ none)
    × (get_queue id r ≡ some q)
    × ((other : Name) → name_eq id other ≡ false → get_queue other r ≡ get_queue other m)
AfterCreate id m r already_exists = (r ≡ m) × ((q : Queue) × (get_queue id m ≡ some q))
AfterCreate id m r scan_failed = r ≡ m

-- A creation that succeeds registers a queue under an id that was free, under which it is found from
-- then on, and no lookup of another id changes; a creation under an id that is taken, or whose scan
-- fails, leaves the manager as it was.
pub create_queue_lem :
    (os : Os) (id : Name) (config : QueueConfig) (dir : Dir) (m : QueueManager)
    → AfterCreate id m (create_queue os id config dir m).0 (create_queue os id config dir m).1
unfolding create_queue get_queue
create_queue_lem os id config dir m = elim (Option-cases (find id m.queues)) [
  | inr (q, e) ↦ rw (e, create_queue) (refl, (q, e))
  | inl e ↦ elim (Option-cases (scan_directory os (new_queue config dir))) [
    | inl s ↦ rw (e, s, create_queue) refl
    | inr (q, s) ↦ rw (e, s, create_queue) (e, rw (name_eq_refl id) refl, λ other h. rw h refl)
  ]
]

-- A removal succeeds exactly for an id that is registered; afterwards the id is not found, and the
-- lookup of every other id is as before.
pub remove_queue_lem :
    (id : Name) (m : QueueManager)
    → ((remove_queue id m).1 ≡ is_some (get_queue id m))
      × (get_queue id (remove_queue id m).0 ≡ none)
      × ((other : Name)
          → name_eq id other ≡ false
          → get_queue other (remove_queue id m).0 ≡ get_queue other m)
unfolding remove_queue get_queue
remove_queue_lem id m = elim (Option-cases (find id m.queues)) [
  | inl e ↦ rw (e, remove_queue) (refl, e, λ other h. refl)
  | inr (q, e) ↦
      rw (e, remove_queue)
        (refl, find-delete_self id m.queues, λ other h. find-delete_other id other m.queues h)
]
