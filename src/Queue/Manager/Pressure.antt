-- ===== src/Queue/Manager/Pressure.antt =====
-- What the checks of memory and disk space do to the queues.
use aviationwx_bridge.Prelude.{
  All, Bool, Bool-cases, Option, [], false, if◌then◌else◌, inl, inr, ltb, none, some, true, ◌*◌,
  ◌==◌, ◌∷◌,
}
use aviationwx_bridge.Queue.Names.{Name}
use aviationwx_bridge.Queue.State.{Queue, Ratio, percent, try_resume_capture_if_paused}
use aviationwx_bridge.Queue.Removal.{emergency_thin}
use aviationwx_bridge.Queue.Manager.{
  Disks, FsStat, PressureEnv, QueueManager, Queues, check_filesystem_space, check_memory_pressure,
  each, snapshot_queues, thin_all, try_resume_paused_captures,
}
use aviationwx_bridge.Queue.Tracking.{Tracks}
use aviationwx_bridge.Queue.Tracking.Operations.{emergency_thin-Tracks}
use aviationwx_bridge.Queue.Tracking.Reachable.{try_resume-Tracks}

abbrev pub AllTrack : Queues → Type 0
AllTrack qs = All (λ (p : Name × Queue). Tracks p.1) qs

each-All :
    (P R : Name × Queue → Type 0) (f : Name → Queue → Queue)
    → ((id : Name) (q : Queue) → P (id, q) → R (id, f id q))
    → (qs : Queues) → All P qs
    → All R (each f qs)
each-All P R f h [] a = tt
each-All P R f h (p ∷ qs) a = (h p.0 p.1 a.0, each-All P R f h qs a.1)

pub thin_all-Tracks :
    (disks : Disks) (keep : Ratio) (m : QueueManager)
    → AllTrack m.queues
    → AllTrack (thin_all disks keep m).queues
unfolding thin_all
thin_all-Tracks disks keep m a =
    each-All _ _ (λ id q. (emergency_thin (disks id) keep q).0)
      (λ id q t. emergency_thin-Tracks (disks id) keep q t) m.queues a

resume_all-Tracks :
    (m : QueueManager) → AllTrack m.queues → AllTrack (try_resume_paused_captures m).queues
unfolding try_resume_paused_captures
resume_all-Tracks m a =
    each-All _ _ (λ id q. (try_resume_capture_if_paused q).0) (λ id q t. try_resume-Tracks q t)
      m.queues a

pub check_filesystem_space-Tracks :
    (disks : Disks) (stat : Option FsStat) (m : QueueManager)
    → AllTrack m.queues
    → AllTrack (check_filesystem_space disks stat m).queues
unfolding check_filesystem_space
check_filesystem_space-Tracks disks none m a = a
check_filesystem_space-Tracks disks (some s) m a = elim (Bool-cases (s.total_bytes == 0)) [
  | inl z ↦ rw z a
  | inr z ↦ elim (Bool-cases (ltb (s.free_bytes * 10) s.total_bytes)) [
    | inl l ↦ rw (z, l) (thin_all-Tracks disks (percent 30) m a)
    | inr l ↦ elim (Bool-cases (ltb (s.free_bytes * 5) s.total_bytes)) [
      | inl k ↦ rw (z, l, k) (thin_all-Tracks disks (percent 50) m a)
      | inr k ↦ rw (z, l, k) (resume_all-Tracks m a)
    ]
  ]
]

pub thin_if-Tracks :
    (over : Bool) (disks : Disks) (keep : Ratio) (m : QueueManager)
    → AllTrack m.queues
    → AllTrack (if over then thin_all disks keep m else m).queues
thin_if-Tracks true disks keep m a = thin_all-Tracks disks keep m a
thin_if-Tracks false disks keep m a = a

-- A check of memory and disk space keeps the counters of every queue in agreement with its directory,
-- whatever the disks, the free space and the heap are.
pub check_memory_pressure-AllTrack :
    (env : PressureEnv) (m : QueueManager)
    → AllTrack m.queues
    → AllTrack (check_memory_pressure env m).queues
unfolding check_memory_pressure snapshot_queues
check_memory_pressure-AllTrack env m a = thin_if-Tracks _ env.heap_disks (percent 30) _ (
    check_filesystem_space-Tracks env.space_disks env.stat _
      (thin_if-Tracks _ env.size_disks m.global_config.emergency_thin_ratio (snapshot_queues m) a))
