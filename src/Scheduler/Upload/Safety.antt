-- ===== src/Scheduler/Upload/Safety.antt =====
-- The invariant of the upload pool over every interleaving of its scheduling, its goroutines and the
-- changes of its configuration.
use aviationwx_bridge.Prelude.{
  Bool-cases, Instant, List, Option, Option-cases, [], ap, arith, if◌then◌else◌, inl, inr, length,
  none, refl, some, subst, suc, sym, ℕ, ◌%◌, ◌++◌, ◌+◌, ◌-◌, ◌==◌, ◌∙◌, ◌∷◌, ◌≡◌, ◌≤◌,
}
use aviationwx_bridge.Queue.Disk.{Os}
use aviationwx_bridge.Scheduler.Upload.{
  FilePath, UploadTask, UploadWorker, UploadWorkerConfig, add_queue, add_workers, new_upload_worker,
  path_eq, path_of, read_limit, remove_queue, set_uploader, start_pool, update_camera,
}
use aviationwx_bridge.Queue.Names.{Name}
use aviationwx_bridge.Scheduler.Upload.Probe.{note_probe, probe_connections, probe_loop}
use aviationwx_bridge.Scheduler.Upload.Transfer.{ReadFile, Transfer, upload_with_retry}
use aviationwx_bridge.Scheduler.Upload.Schedule.{
  Pool, Reach, Step, adds, changes_queue, conclude, counts, delete_path, finish_task, finishes,
  here, limits, next, probes, reconfigures, removes, schedule_uploads, schedules, spawns, started,
  takes,
}
use aviationwx_bridge.Scheduler.Upload.Frame.{uploaded_same}
use aviationwx_bridge.Scheduler.Upload.Scheduling.{Kept, schedule_uploads-Kept}
use aviationwx_bridge.Scheduler.Upload.InFlight.{
  IsMarked, IsMarked-same, copies, copies-delete_other, copies-delete_self, hands, hands-append,
  one_if,
}

-- the count of the goroutines, of which a change of the limit has started some that it counts at its end
abbrev pub IsStaffed : Option (ℕ × ℕ) → ℕ → ℕ → Type 0
IsStaffed none count goroutines = (goroutines ≡ count) × (goroutines ≤ 10)
IsStaffed (some (additional, left)) count goroutines =
    (goroutines + left ≡ count + additional) × (goroutines + left ≤ 10)

pub record IsSafe (p : Pool) : Type 0 where
  pub marks : IsMarked p.worker p.running
  pub counted : p.worker.active_uploads ≡ length p.running
  pub staffed : length p.running ≤ p.goroutines
  pub staff : IsStaffed p.growing p.worker.worker_count p.goroutines

IsSafe-Kept :
    (p : Pool) (r : UploadWorker)
    → Kept p.running p.worker r
    → IsSafe p
    → IsSafe (record p { worker = r })
IsSafe-Kept p r k s = record {
  marks = k.0 s.marks;
  counted = k.1 ∙ s.counted;
  staffed = s.staffed;
  staff = subst (λ c. IsStaffed p.growing c p.goroutines) (sym k.2) s.staff;
}

length-middle :
    (xs : List UploadTask) (t : UploadTask) (ys : List UploadTask)
    → length (xs ++ (t ∷ ys)) ≡ suc (length (xs ++ ys))
length-middle [] t ys = refl
length-middle (x ∷ xs) t ys = ap (λ n. suc n) (length-middle xs t ys)

hands-middle :
    (f : FilePath) (xs : List UploadTask) (t : UploadTask) (ys : List UploadTask)
    → hands f (xs ++ (t ∷ ys)) ≡ one_if (path_eq (path_of t) f) + hands f (xs ++ ys)
hands-middle f xs t ys = omega (arith, hands-append f xs (t ∷ ys), hands-append f xs ys)

unmark_finished :
    (f : FilePath) (task : UploadTask) (w : UploadWorker) (xs ys : List UploadTask)
    → IsMarked w (xs ++ (task ∷ ys))
    → (copies f (delete_path (path_of task) w.in_flight) ≡ hands f w.work_chan + hands f (xs ++ ys))
      × (copies f (delete_path (path_of task) w.in_flight) ≤ 1)
unmark_finished f task w xs ys m =
    let split = hands-middle f xs task ys in
    elim (Bool-cases (path_eq (path_of task) f)) [
      | inl e ↦
          let gone = copies-delete_self (path_of task) f w.in_flight e in
          let one : one_if (path_eq (path_of task) f) ≡ 1 = rw e refl in
          (omega (arith, gone, one, split, m.marked f, m.single f), omega (arith, gone))
      | inr e ↦
          let same = copies-delete_other (path_of task) f w.in_flight e in
          let none_here : one_if (path_eq (path_of task) f) ≡ 0 = rw e refl in
          (omega (arith, same, none_here, split, m.marked f), omega (arith, same, m.single f))
    ]

finish_task-IsMarked :
    (os : Os) (now : Instant) (g : ReadFile) (t : Transfer) (task : UploadTask) (w : UploadWorker)
    (xs ys : List UploadTask)
    → IsMarked w (xs ++ (task ∷ ys))
    → IsMarked (finish_task os now g t task w) (xs ++ ys)
unfolding finish_task
finish_task-IsMarked os now g t task w xs ys m =
    let same = uploaded_same os now g t task w in
    let m' =
      IsMarked-same w (conclude os task (upload_with_retry os now g t task w)) (xs ++ (task ∷ ys))
        same.0 same.1 m in
    record {
      marked = λ f.
          (unmark_finished f task (conclude os task (upload_with_retry os now g t task w)) xs ys
            m').0;
      single = λ f.
          (unmark_finished f task (conclude os task (upload_with_retry os now g t task w)) xs ys
            m').1;
    }

finish_task_counts :
    (os : Os) (now : Instant) (g : ReadFile) (t : Transfer) (task : UploadTask) (w : UploadWorker)
    → ((finish_task os now g t task w).active_uploads ≡ w.active_uploads - 1)
      × ((finish_task os now g t task w).worker_count ≡ w.worker_count)
unfolding finish_task
finish_task_counts os now g t task w =
    let same = uploaded_same os now g t task w in (ap (λ n. n - 1) same.2, same.3)

read_limit-IsStaffed :
    (n : ℕ) (p : Pool)
    → IsStaffed none p.worker.worker_count p.goroutines
    → let r = read_limit n p.worker in IsStaffed (some (r.1, r.1)) r.0.worker_count p.goroutines
read_limit-IsStaffed n p h = (ground arith, ground arith)

note_probe-Kept :
    (running : List UploadTask) (tested : Instant) (answer : Option Name) (w v : UploadWorker)
    → Kept running w v
    → Kept running w (note_probe tested answer v)
note_probe-Kept running tested none w v k =
    (λ m. IsMarked-same v _ running refl refl (k.0 m), k.1, k.2)
note_probe-Kept running tested (some err) w v k =
    (λ m. IsMarked-same v _ running refl refl (k.0 m), k.1, k.2)

probe_connections-Kept :
    (running : List UploadTask) (now tested : Instant) (answer : Option Name) (w : UploadWorker)
    → Kept running w (probe_connections now tested answer w)
unfolding probe_connections
probe_connections-Kept running now tested answer w =
    let n = length w.queue_order in
    let choice : Option ℕ =
      if n == 0 then none else probe_loop now w (w.probe_camera_index % n) n 0 in
    elim (Option-cases choice) [
      | inl e ↦ rw (e, probe_connections) (λ m. m, refl, refl)
      | inr (index, e) ↦
          rw (e, probe_connections)
            (note_probe-Kept running tested answer w (record w { probe_camera_index = index })
              (λ m. IsMarked-same w _ running refl refl m, refl, refl))
    ]

Step-IsSafe : {p q : Pool} → Step p q → IsSafe p → IsSafe q
Step-IsSafe (schedules disks present now p) s =
    IsSafe-Kept p (schedule_uploads disks present now p.worker)
      (schedule_uploads-Kept p.running disks present now p.worker) s
Step-IsSafe (takes p task rest h free) s = record {
  marks = record {
    marked = λ f. omega (arith, s.marks.marked f, ap (λ (ts : List UploadTask). hands f ts) h);
    single = s.marks.single;
  };
  counted = omega (arith, s.counted);
  staffed = omega arith;
  staff = s.staff;
}
Step-IsSafe (finishes os now g t p xs task ys h) s =
    let marks : IsMarked p.worker (xs ++ (task ∷ ys)) =
      subst (λ ts. IsMarked p.worker ts) h s.marks in
    let n = ap (λ (ts : List UploadTask). length ts) h ∙ length-middle xs task ys in
    let counts = finish_task_counts os now g t task p.worker in
    record {
      marks = finish_task-IsMarked os now g t task p.worker xs ys marks;
      counted = omega (arith, counts.0, s.counted, n);
      staffed = omega (arith, s.staffed, n);
      staff = subst (λ c. IsStaffed p.growing c p.goroutines) (sym counts.1) s.staff;
    }
Step-IsSafe (probes now tested answer p) s =
    IsSafe-Kept p (probe_connections now tested answer p.worker)
      (probe_connections-Kept p.running now tested answer p.worker) s
Step-IsSafe (limits n p e) s = record {
  marks = IsMarked-same p.worker (read_limit n p.worker).0 p.running refl refl s.marks;
  counted = s.counted;
  staffed = s.staffed;
  staff =
      read_limit-IsStaffed n p
        (subst (λ g. IsStaffed g p.worker.worker_count p.goroutines) e s.staff);
}
Step-IsSafe (spawns additional left p e) s =
    let staff : IsStaffed (some (additional, suc left)) p.worker.worker_count p.goroutines =
      subst (λ g. IsStaffed g p.worker.worker_count p.goroutines) e s.staff in
    record {
      marks = s.marks;
      counted = s.counted;
      staffed = omega (arith, s.staffed);
      staff = (omega (arith, staff.0), omega (arith, staff.1));
    }
Step-IsSafe (counts additional p e) s =
    let staff : IsStaffed (some (additional, 0)) p.worker.worker_count p.goroutines =
      subst (λ g. IsStaffed g p.worker.worker_count p.goroutines) e s.staff in
    record {
      marks = IsMarked-same p.worker (add_workers additional p.worker) p.running refl refl s.marks;
      counted = s.counted;
      staffed = s.staffed;
      staff = (omega (arith, staff.0), omega (arith, staff.1));
    }
Step-IsSafe (adds id q remote uploader p) s =
    IsSafe-Kept p (add_queue id q remote uploader p.worker)
      (unfold add_queue in (λ m. IsMarked-same p.worker _ p.running refl refl m, refl, refl)) s
Step-IsSafe (removes id p) s =
    IsSafe-Kept p (remove_queue id p.worker)
      (unfold remove_queue in (λ m. IsMarked-same p.worker _ p.running refl refl m, refl, refl)) s
Step-IsSafe (reconfigures id uploader p) s =
    IsSafe-Kept p (set_uploader id uploader p.worker)
      (unfold set_uploader in (λ m. IsMarked-same p.worker _ p.running refl refl m, refl, refl)) s
Step-IsSafe (changes_queue id q p) s =
    IsSafe-Kept p (update_camera id (λ c. record c { queue = q }) p.worker)
      (λ m. IsMarked-same p.worker _ p.running refl refl m, refl, refl) s

started-IsSafe : (c : UploadWorkerConfig) (now : Instant) → IsSafe (started c now)
unfolding started start_pool new_upload_worker
started-IsSafe c now = record {
  marks = record { marked = λ f. omega arith; single = λ f. omega arith };
  counted = refl;
  staffed = omega arith;
  staff = (refl, ground arith);
}

-- From the start of the worker, after any interleaving of schedulings, tasks taken and finished with
-- any outcome, probes, changes of the cameras and of their queues, and the parts of changes of the limit,
-- none of which begins before the one before it has ended: every image that is marked in flight is in
-- exactly one hand, that of a task in the channel or in a goroutine, and every such task is marked; the
-- active uploads are counted, and are no more than the goroutines, which are at most ten, and which the
-- worker counts except for those that a running change has started.
pub Reach-IsSafe :
    (c : UploadWorkerConfig) (now : Instant) {p : Pool} → Reach (started c now) p → IsSafe p
Reach-IsSafe c now here = started-IsSafe c now
Reach-IsSafe c now (next r s) = Step-IsSafe s (Reach-IsSafe c now r)
