-- ===== src/Queue/Manager/Relief.antt =====
-- What the checks of memory and disk space achieve on disks that remove what they are asked to remove.
use aviationwx_bridge.Prelude.{
  Bool, Bool-cases, Option, [], arith, false, if◌then◌else◌, inl, inr, ltb, lt→ltb, none, refl,
  some, true, ℕ, ◌&&◌, ◌*◌, ◌<◌, ◌==◌, ◌∙◌, ◌∷◌, ◌≡◌, ◌≤◌, ◌⊎◌,
}
use aviationwx_bridge.Queue.Names.{Name}
use aviationwx_bridge.Queue.State.{
  Queue, Ratio, can_resume_capture, maybe_resume_capture, mega, percent,
  try_resume_capture_if_paused,
}
use aviationwx_bridge.Queue.Health.{get_capacity_percent-reaches, is_reached}
use aviationwx_bridge.Queue.Removal.{emergency_thin, keep_count}
use aviationwx_bridge.Queue.Manager.{
  Disks, FsStat, PressureEnv, QueueManager, Queues, check_filesystem_space, check_memory_pressure,
  each, get_total_queue_size, snapshot_queues, sum_sizes, thin_all, try_resume_paused_captures,
}
use aviationwx_bridge.Queue.Manager.Pressure.{
  AllTrack, check_filesystem_space-Tracks, thin_if-Tracks,
}
use aviationwx_bridge.Queue.Tracking.{Tracks}
use aviationwx_bridge.Queue.Survivors.Emergency.{IsSound, emergency_thin-count, keep_count-IsShare}
use native.Mathlib.Nat.{le_trans, mul-le-mul_right}

-- A relation of each queue before and the queue of the same id after.
abbrev pub AllPairs : (Queue → Queue → Type 0) → Queues → Queues → Type 0
AllPairs R [] [] = Unit
AllPairs R [] (r ∷ rs) = ⊥
AllPairs R (p ∷ ps) [] = ⊥
AllPairs R (p ∷ ps) (r ∷ rs) = (p.0 ≡ r.0) × R p.1 r.1 × AllPairs R ps rs

AllPairs-refl :
    (R : Queue → Queue → Type 0) → ((q : Queue) → R q q) → (ps : Queues) → AllPairs R ps ps
AllPairs-refl R h [] = tt
AllPairs-refl R h (p ∷ ps) = (refl, h p.1, AllPairs-refl R h ps)

AllPairs-trans :
    (R S T : Queue → Queue → Type 0)
    → ((p q r : Queue) → R p q → S q r → T p r)
    → (ps qs rs : Queues) → AllPairs R ps qs
    → AllPairs S qs rs
    → AllPairs T ps rs
AllPairs-trans R S T h [] [] [] a b = tt
AllPairs-trans R S T h [] [] (r ∷ rs) a b = absurd b
AllPairs-trans R S T h [] (q ∷ qs) rs a b = absurd a
AllPairs-trans R S T h (p ∷ ps) [] rs a b = absurd a
AllPairs-trans R S T h (p ∷ ps) (q ∷ qs) [] a b = absurd b
AllPairs-trans R S T h (p ∷ ps) (q ∷ qs) (r ∷ rs) a b =
    (a.0 ∙ b.0, h p.1 q.1 r.1 a.1 b.1, AllPairs-trans R S T h ps qs rs a.2 b.2)

each-AllPairs :
    (R : Queue → Queue → Type 0) (f : Name → Queue → Queue)
    → ((id : Name) (q : Queue) → Tracks q → R q (f id q))
    → (ps : Queues) → AllTrack ps
    → AllPairs R ps (each f ps)
each-AllPairs R f h [] a = tt
each-AllPairs R f h (p ∷ ps) a = (refl, h p.0 p.1 a.0, each-AllPairs R f h ps a.1)

abbrev pub AreSound : Disks → Type 0
AreSound disks = (id : Name) → IsSound (disks id)

abbrev pub NoMore : Queue → Queue → Type 0
NoMore q r = r.image_count ≤ q.image_count

-- no more images than before, and at most one or no more than the ratio of them
abbrev pub Keeps : Ratio → Queue → Queue → Type 0
Keeps keep q r =
    (r.image_count ≤ q.image_count)
    × ((r.image_count ≤ 1) ⊎ (r.image_count * keep.den ≤ q.image_count * keep.num))

-- a count that a share bounds
at_most_share :
    (keep : Ratio) (n k m : ℕ)
    → (k ≡ 1) ⊎ (k * keep.den ≤ n * keep.num)
    → m ≤ k
    → (m ≤ 1) ⊎ (m * keep.den ≤ n * keep.num)
at_most_share keep n k m (inl h) l = inl (omega arith)
at_most_share keep n k m (inr h) l = inr (le_trans (mul-le-mul_right keep.den l) h)

thin_all-Keeps :
    (disks : Disks) (keep : Ratio) (m : QueueManager)
    → 0 < keep.den
    → AreSound disks
    → AllTrack m.queues
    → AllPairs (Keeps keep) m.queues (thin_all disks keep m).queues
unfolding thin_all
thin_all-Keeps disks keep m d s a =
    each-AllPairs (Keeps keep) (λ id q. (emergency_thin (disks id) keep q).0)
      (λ id q t.
        let n = emergency_thin-count (disks id) keep q (s id) t in
        let share = keep_count-IsShare keep q.image_count d in
        (
          omega (arith, n),
          at_most_share keep q.image_count (keep_count keep q.image_count) _ share.1
              (omega (arith, n)),
        ))
      m.queues a

thin_all-NoMore :
    (disks : Disks) (keep : Ratio) (m : QueueManager)
    → AreSound disks
    → AllTrack m.queues
    → AllPairs NoMore m.queues (thin_all disks keep m).queues
unfolding thin_all
thin_all-NoMore disks keep m s a =
    each-AllPairs NoMore (λ id q. (emergency_thin (disks id) keep q).0)
      (λ id q t. omega (arith, emergency_thin-count (disks id) keep q (s id) t)) m.queues a

resume-count : (q : Queue) → (try_resume_capture_if_paused q).0.image_count ≡ q.image_count
unfolding try_resume_capture_if_paused maybe_resume_capture
resume-count q = ground arith

check_filesystem_space-NoMore :
    (disks : Disks) (stat : Option FsStat) (m : QueueManager)
    → AreSound disks
    → AllTrack m.queues
    → AllPairs NoMore m.queues (check_filesystem_space disks stat m).queues
unfolding check_filesystem_space try_resume_paused_captures
check_filesystem_space-NoMore disks none m s a = AllPairs-refl NoMore (λ q. omega arith) m.queues
check_filesystem_space-NoMore disks (some f) m s a =
    let resumed =
      each-AllPairs NoMore (λ id q. (try_resume_capture_if_paused q).0)
        (λ id q t. omega (arith, resume-count q)) m.queues a in
    elim (Bool-cases (f.total_bytes == 0)) [
      | inl z ↦ rw z (AllPairs-refl NoMore (λ q. omega arith) m.queues)
      | inr z ↦ elim (Bool-cases (ltb (f.free_bytes * 10) f.total_bytes)) [
        | inl l ↦ rw (z, l) (thin_all-NoMore disks (percent 30) m s a)
        | inr l ↦ elim (Bool-cases (ltb (f.free_bytes * 5) f.total_bytes)) [
          | inl k ↦ rw (z, l, k) (thin_all-NoMore disks (percent 50) m s a)
          | inr k ↦ rw (z, l, k) resumed
        ]
      ]
    ]

thin_if-NoMore :
    (over : Bool) (disks : Disks) (keep : Ratio) (m : QueueManager)
    → AreSound disks
    → AllTrack m.queues
    → AllPairs NoMore m.queues (if over then thin_all disks keep m else m).queues
thin_if-NoMore true disks keep m s a = thin_all-NoMore disks keep m s a
thin_if-NoMore false disks keep m s a = AllPairs-refl NoMore (λ q. omega arith) m.queues

thin_if-Keeps :
    (over : Bool) (disks : Disks) (keep : Ratio) (m : QueueManager)
    → over ≡ true
    → 0 < keep.den
    → AreSound disks
    → AllTrack m.queues
    → AllPairs (Keeps keep) m.queues (if over then thin_all disks keep m else m).queues
thin_if-Keeps true disks keep m h d s a = thin_all-Keeps disks keep m d s a
thin_if-Keeps false disks keep m h d s a = absurd (cc h)

then_NoMore : (keep : Ratio) (p q r : Queue) → Keeps keep p q → NoMore q r → Keeps keep p r
then_NoMore keep p q r (l, inl h) k = (omega arith, inl (omega arith))
then_NoMore keep p q r (l, inr h) k = (omega arith, inr (le_trans (mul-le-mul_right keep.den k) h))

after_NoMore : (keep : Ratio) (p q r : Queue) → NoMore p q → Keeps keep q r → Keeps keep p r
after_NoMore keep p q r h (l, inl k) = (omega arith, inl k)
after_NoMore keep p q r h (l, inr k) = (omega arith, inr (le_trans k (mul-le-mul_right keep.num h)))

NoMore-trans : (p q r : Queue) → NoMore p q → NoMore q r → NoMore p r
NoMore-trans p q r h k = omega arith

-- On sound disks a check of memory and disk space leaves every queue under its id with no more images
-- than before. If the sizes together were above the global maximum, a queue has at most one image or no
-- more than the configured ratio of those before, and if the heap was above its maximum, at most one or
-- no more than 30% of them.
pub check_memory_pressure_relieves :
    (env : PressureEnv) (m : QueueManager)
    → AreSound env.size_disks
    → AreSound env.space_disks
    → AreSound env.heap_disks
    → AllTrack m.queues
    → 0 < m.global_config.emergency_thin_ratio.den
    → let r = check_memory_pressure env m in
      AllPairs NoMore m.queues r.queues
      × (m.global_config.max_total_size_mb * mega < get_total_queue_size m
          → AllPairs (Keeps m.global_config.emergency_thin_ratio) m.queues r.queues)
      × (m.global_config.max_heap_mb * mega < env.heap_alloc
          → AllPairs (Keeps (percent 30)) m.queues r.queues)
unfolding check_memory_pressure snapshot_queues get_total_queue_size
check_memory_pressure_relieves env m s1 s2 s3 a d =
    let keep = m.global_config.emergency_thin_ratio in
    let over = ltb (m.global_config.max_total_size_mb * mega) (sum_sizes m.queues) in
    let m0 = snapshot_queues m in
    let m1 : QueueManager = if over then thin_all env.size_disks keep m0 else m0 in
    let m2 = check_filesystem_space env.space_disks env.stat m1 in
    let hot = ltb (m.global_config.max_heap_mb * mega) env.heap_alloc in
    let a1 : AllTrack m1.queues = thin_if-Tracks over env.size_disks keep m0 a in
    let a2 = check_filesystem_space-Tracks env.space_disks env.stat m1 a1 in
    let first : AllPairs NoMore m.queues m1.queues =
      thin_if-NoMore over env.size_disks keep m0 s1 a in
    let second_step = check_filesystem_space-NoMore env.space_disks env.stat m1 s2 a1 in
    let third = thin_if-NoMore hot env.heap_disks (percent 30) m2 s3 a2 in
    let later = AllPairs-trans NoMore NoMore NoMore NoMore-trans _ _ _ second_step third in
    let before_heap = AllPairs-trans NoMore NoMore NoMore NoMore-trans _ _ _ first second_step in
    (
      AllPairs-trans NoMore NoMore NoMore NoMore-trans _ _ _ first later,
      λ h.
          AllPairs-trans (Keeps keep) NoMore (Keeps keep) (then_NoMore keep) _ _ _
            (thin_if-Keeps over env.size_disks keep m0 (lt→ltb _ _ h) d s1 a) later,
      λ h.
          AllPairs-trans NoMore (Keeps (percent 30)) (Keeps (percent 30))
            (after_NoMore (percent 30)) _ _ _ before_heap
            (thin_if-Keeps hot env.heap_disks (percent 30) m2 (lt→ltb _ _ h) (omega arith) s3 a2),
    )

-- a queue whose pause may have ended: it is paused still exactly if its images or bytes reach the resume
-- threshold, a pause that ended is signalled, and nothing is removed
abbrev pub Resumed : Queue → Queue → Type 0
Resumed q r =
    (r.capture_paused ≡ (q.capture_paused && is_reached q.config.resume_threshold q))
    × (q.capture_paused ≡ true → r.capture_paused ≡ false → r.resume_signal ≡ true)
    × (r.dir ≡ q.dir)
    × (r.image_count ≡ q.image_count)

try_resume-Resumed : (q : Queue) → Resumed q (try_resume_capture_if_paused q).0
unfolding try_resume_capture_if_paused maybe_resume_capture can_resume_capture
try_resume-Resumed q = ground (arith, get_capacity_percent-reaches q q.config.resume_threshold)

-- Where the file system has at least a fifth of its space free, the check leaves every queue with its
-- files, and leaves paused exactly those queues that were paused and whose images or bytes reach their
-- resume threshold; the end of a pause is signalled.
pub check_filesystem_space_resumes :
    (disks : Disks) (s : FsStat) (m : QueueManager)
    → AllTrack m.queues
    → 0 < s.total_bytes
    → s.total_bytes ≤ s.free_bytes * 5
    → AllPairs Resumed m.queues (check_filesystem_space disks (some s) m).queues
unfolding check_filesystem_space try_resume_paused_captures
check_filesystem_space_resumes disks s m a h k =
    let z : (s.total_bytes == 0) ≡ false = ground arith in
    let l : ltb (s.free_bytes * 10) s.total_bytes ≡ false = ground arith in
    let n : ltb (s.free_bytes * 5) s.total_bytes ≡ false = ground arith in
    rw (z, l, n)
      (each-AllPairs Resumed (λ id q. (try_resume_capture_if_paused q).0)
        (λ id q t. try_resume-Resumed q) m.queues a)
