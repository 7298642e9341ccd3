-- ===== src/Queue/Health.antt =====
-- The health rules of a queue: the pause at a critical capacity and the resumption below the resume
-- threshold.
use native.Mathlib.Nat.{le_of_mul-le-mul_right, mul-le-mul_right}
use aviationwx_bridge.Prelude.{
  Bool, Bool-cases, ap, arith, false, if◌then◌else◌, inl, inr, leb, ltb, not, refl, true, ℕ, ◌&&◌,
  ◌*◌, ◌<◌, ◌||◌, ◌∙◌, ◌≡◌, ◌≤◌,
}
use aviationwx_bridge.Queue.State.{
  Queue, QueueConfig, Ratio, can_resume_capture, catching_up, critical, degraded,
  get_capacity_percent, maybe_resume_capture, mega, nothing, rank, set_health, update_health_level,
  ◌<?◌, ◌≤?◌,
}

-- so much of a maximum reaches a threshold; without a maximum only a threshold of 0 is reached
abbrev pub reaches : Ratio → ℕ → ℕ → Bool
reaches t amount maximum =
    if ltb 0 maximum then leb (t.num * maximum) (amount * t.den) else leb t.num 0

-- the images or the bytes of the queue reach a threshold
abbrev pub is_reached : Ratio → Queue → Bool
is_reached t q =
    reaches t q.image_count q.config.max_files
    || reaches t q.total_size_bytes (q.config.max_size_mb * mega)

-- a fraction of `get_capacity_percent`
abbrev share_of : ℕ → ℕ → Ratio
share_of amount maximum =
    if ltb 0 maximum then (let r : Ratio = record { num = amount; den = maximum } in r) else nothing

share_of-reaches :
    (t : Ratio) (amount maximum : ℕ) → (t ≤? share_of amount maximum) ≡ reaches t amount maximum
share_of-reaches t amount maximum = elim (Bool-cases (ltb 0 maximum)) [
  | inl e ↦ rw e refl
  | inr e ↦ rw e (ground arith)
]

share_of-pos : (amount maximum : ℕ) → 0 < (share_of amount maximum).den
share_of-pos amount maximum = elim (Bool-cases (ltb 0 maximum)) [
  | inl e ↦ rw e (ground arith)
  | inr e ↦ rw e (omega arith)
]

-- a threshold that the smaller of two fractions reaches is reached by the larger one
larger_reaches :
    (t a b : Ratio)
    → 0 < a.den
    → a.num * b.den ≤ b.num * a.den
    → t.num * a.den ≤ a.num * t.den
    → t.num * b.den ≤ b.num * t.den
larger_reaches t a b h k l =
    le_of_mul-le-mul_right {m = t.num * b.den} {n = b.num * t.den} {k = a.den}
      (omega (arith, mul-le-mul_right b.den l, mul-le-mul_right t.den k)) h

-- the larger of two fractions reaches what one of them reaches
max-reaches :
    (t a b : Ratio)
    → 0 < a.den
    → 0 < b.den
    → (t ≤? (if b <? a then a else b)) ≡ (t ≤? a) || (t ≤? b)
max-reaches t a b h k = ground (arith, larger_reaches t a b h, larger_reaches t b a k)

-- The capacity reaches a threshold exactly if the images or the bytes do.
pub get_capacity_percent-reaches :
    (q : Queue) (t : Ratio) → (t ≤? get_capacity_percent q) ≡ is_reached t q
unfolding get_capacity_percent
get_capacity_percent-reaches q t =
    let count = share_of q.image_count q.config.max_files in
    let bytes = share_of q.total_size_bytes (q.config.max_size_mb * mega) in
    let same : ltb 0 (q.config.max_size_mb * mega) ≡ ltb 0 q.config.max_size_mb = ground arith in
    rw (← same) (
      max-reaches t count bytes (share_of-pos q.image_count q.config.max_files)
        (share_of-pos q.total_size_bytes (q.config.max_size_mb * mega))
      ∙ ap (λ x. x || (t ≤? bytes)) (share_of-reaches t q.image_count q.config.max_files)
      ∙ ap (λ x. reaches t q.image_count q.config.max_files || x)
          (share_of-reaches t q.total_size_bytes (q.config.max_size_mb * mega)))

-- what the switch sets, by the tests of its thresholds
set_health_facts :
    (r : Ratio) (q : Queue)
    → let n = set_health r q in
      let c = q.config in
      (get_capacity_percent n ≡ get_capacity_percent q)
      × (n.config ≡ c)
      × (leb (rank critical) (rank n.health_level) ≡ (c.threshold_critical ≤? r))
      × (leb (rank degraded) (rank n.health_level)
          ≡ ((c.threshold_critical ≤? r) || (c.threshold_degraded ≤? r)))
      × (leb (rank catching_up) (rank n.health_level) ≡ (
          (c.threshold_critical ≤? r)
          || ((c.threshold_degraded ≤? r) || (c.threshold_catching_up ≤? r))))
      × (n.capture_paused
          ≡ (q.capture_paused || c.pause_capture_on_critical && (c.threshold_critical ≤? r)))
unfolding set_health get_capacity_percent
set_health_facts r q = elim (Bool-cases (q.config.threshold_critical ≤? r)) [
  | inl a ↦ elim (Bool-cases (q.config.pause_capture_on_critical && not q.capture_paused)) [
    | inl b ↦ rw (a, b) (refl, refl, refl, refl, refl, ground (arith, b))
    | inr b ↦ rw (a, b) (refl, refl, refl, refl, refl, ground (arith, b))
  ]
  | inr a ↦ elim (Bool-cases (q.config.threshold_degraded ≤? r)) [
    | inl b ↦ rw (a, b) (refl, refl, refl, refl, refl, ground arith)
    | inr b ↦ elim (Bool-cases (q.config.threshold_catching_up ≤? r)) [
      | inl d ↦ rw (a, b, d) (refl, refl, refl, refl, refl, ground arith)
      | inr d ↦ rw (a, b, d) (refl, refl, refl, refl, refl, ground arith)
    ]
  ]
]

-- what the end of a pause leaves
maybe_resume_facts :
    (q : Queue)
    → let n = maybe_resume_capture q in
      (n.health_level ≡ q.health_level)
      × (n.capture_paused
          ≡ (q.capture_paused && (q.config.resume_threshold ≤? get_capacity_percent q)))
      × (q.capture_paused ≡ true → n.capture_paused ≡ false → n.resume_signal ≡ true)
unfolding maybe_resume_capture can_resume_capture
maybe_resume_facts q = ground arith

-- `updateHealthLevelLocked` makes the level critical exactly if the images or the bytes reach the
-- critical threshold of their maximum, at least degraded exactly if they reach that or the threshold for
-- it, and healthy exactly if they reach none of the three. Afterwards capture is paused exactly if it was
-- paused, or the critical threshold is reached and the configuration pauses then, and one of the two
-- reaches the resume threshold; a pause that it lifts is signalled.
pub update_health_level_lem :
    (q : Queue)
    → let c = q.config in
      let r = update_health_level q in
      (leb (rank critical) (rank r.health_level) ≡ is_reached c.threshold_critical q)
      × (leb (rank degraded) (rank r.health_level)
          ≡ (is_reached c.threshold_critical q || is_reached c.threshold_degraded q))
      × (leb (rank catching_up) (rank r.health_level) ≡ (
          is_reached c.threshold_critical q
          || (is_reached c.threshold_degraded q || is_reached c.threshold_catching_up q)))
      × (r.capture_paused ≡ (
          (q.capture_paused || c.pause_capture_on_critical && is_reached c.threshold_critical q)
          && is_reached c.resume_threshold q))
      × (q.capture_paused ≡ true → r.capture_paused ≡ false → r.resume_signal ≡ true)
unfolding update_health_level
update_health_level_lem q =
    let c = q.config in
    let f = get_capacity_percent-reaches q in
    let n = set_health (get_capacity_percent q) q in
    let set = set_health_facts (get_capacity_percent q) q in
    let res = maybe_resume_facts n in
    let pauses =
      q.capture_paused || c.pause_capture_on_critical && is_reached c.threshold_critical q in
    let paused : n.capture_paused ≡ pauses =
      set.5
      ∙ ap (λ b. q.capture_paused || c.pause_capture_on_critical && b) (f c.threshold_critical) in
    let resumes : (n.config.resume_threshold ≤? get_capacity_percent n)
        ≡ is_reached c.resume_threshold q =
      ap (λ (x : QueueConfig). x.resume_threshold ≤? get_capacity_percent n) set.1
      ∙ ap (λ r. c.resume_threshold ≤? r) set.0
      ∙ f c.resume_threshold in
    let level = λ (k : ℕ). ap (λ l. leb k (rank l)) res.0 in
    (
      level 3 ∙ set.2 ∙ f c.threshold_critical,
      level 2 ∙ set.3 ∙ rw (f c.threshold_critical, f c.threshold_degraded) refl,
      level 1
          ∙ set.4
          ∙ rw (f c.threshold_critical, f c.threshold_degraded, f c.threshold_catching_up) refl,
      res.1
          ∙ ap (λ b. b && (n.config.resume_threshold ≤? get_capacity_percent n)) paused
          ∙ ap (λ b. pauses && b) resumes,
      λ p. res.2 (rw (set.5, p) refl),
    )
