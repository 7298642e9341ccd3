-- ===== src/Queue/Tracking/Space.antt =====
-- The space checks of `Enqueue` keep the counters in agreement with the directory and only take files
-- away.
use aviationwx_bridge.Prelude.{
  All, All-take, Bool-cases, List, Option-cases, [], ap, arith, inl, inr, leb, length, none, refl,
  subst, suc, take, zero, ℕ, ◌-◌, ◌==◌, ◌∙◌, ◌∷◌, ◌≡◌, ◌≤◌,
}
use aviationwx_bridge.Queue.Names.{Name, name_eq}
use aviationwx_bridge.Queue.Names.RoundTrip.{name_eq_sound}
use aviationwx_bridge.Queue.Disk.{Dir, Entry, Os, list_files_sorted, lookup, remove, without}
use aviationwx_bridge.Queue.Disk.Laws.{lookup-without_ne, lookup-without_self}
use aviationwx_bridge.Queue.State.{
  Queue, Ratio, maybe_resume_capture, set_health, update_health_level,
}
use aviationwx_bridge.Queue.Removal.{
  Reason, by_age, by_thinning, emergency_thin, keep_count, recalculate_oldest, remove_all,
  remove_counted, settle,
}
use aviationwx_bridge.Queue.Intake.{
  emergency_thin_for_space, has_space_for_image, settle_space, space_loop,
}
use aviationwx_bridge.Queue.Tracking.{Tracks}
use aviationwx_bridge.Queue.Tracking.FreeName.{length-without}
use aviationwx_bridge.Queue.Tracking.Removing.{
  Counts-subst, IsListed, Removed-cases, dir-remove_counted, list_files_sorted-IsListed,
  recalculate_oldest_same, remove_counted-IsListed, remove_counted-Tracks, update_health_level_same,
}

-- what a removal leaves: no new name, no more files, and the count of the queued images
abbrev pub Shrinks : Queue → Queue → Type 0
Shrinks q r =
    ((n : Name) → lookup n q.dir ≡ none → lookup n r.dir ≡ none)
    × (length r.dir ≤ length q.dir)
    × (r.images_queued ≡ q.images_queued)

pub Shrinks-refl : (q : Queue) → Shrinks q q
Shrinks-refl q = (λ n h. h, omega arith, refl)

pub Shrinks-trans : (a b c : Queue) → Shrinks a b → Shrinks b c → Shrinks a c
Shrinks-trans a b c f g = (λ n h. g.0 n (f.0 n h), omega (arith, f.1, g.1), g.2 ∙ f.2)

Shrinks-same : (a b : Queue) → b.dir ≡ a.dir → b.images_queued ≡ a.images_queued → Shrinks a b
Shrinks-same a b h k =
    (λ n e. ap (λ d. lookup n d) h ∙ e, omega (arith, ap (λ (d : Dir). length d) h), k)

absent_without : (n m : Name) (dir : Dir) → lookup m dir ≡ none → lookup m (without n dir) ≡ none
absent_without n m dir h = elim (Bool-cases (name_eq n m)) [
  | inl e ↦
      subst (λ k. lookup k (without n dir) ≡ none) (name_eq_sound n m e) (lookup-without_self n dir)
  | inr e ↦ lookup-without_ne n m dir e ∙ h
]

Shrinks-without :
    (n : Name) (a b : Queue)
    → b.dir ≡ without n a.dir
    → b.images_queued ≡ a.images_queued
    → Shrinks a b
Shrinks-without n a b h k = (
  λ m e. ap (λ d. lookup m d) h ∙ absent_without n m a.dir e,
  omega (arith, ap (λ (d : Dir). length d) h, (length-without n a.dir).0),
  k,
)

remove_counted-queued :
    (os : Os) (reason : Reason) (f : Entry) (q : Queue)
    → (remove_counted os reason f q).0.images_queued ≡ q.images_queued
unfolding remove_counted
remove_counted-queued os by_thinning f q = elim (Removed-cases (remove os f.name q.dir).1) [
  | inl e ↦ rw (e, remove_counted) refl
  | inr (inl e) ↦ rw (e, remove_counted) refl
  | inr (inr e) ↦ rw (e, remove_counted) refl
]
remove_counted-queued os by_age f q = elim (Removed-cases (remove os f.name q.dir).1) [
  | inl e ↦ rw (e, remove_counted) refl
  | inr (inl e) ↦ rw (e, remove_counted) refl
  | inr (inr e) ↦ rw (e, remove_counted) refl
]

remove_counted-Shrinks :
    (os : Os) (reason : Reason) (f : Entry) (q : Queue) → Shrinks q (remove_counted os reason f q).0
remove_counted-Shrinks os reason f q =
    let same = remove_counted-queued os reason f q in
    elim (dir-remove_counted os reason f q) [
      | inl e ↦ Shrinks-same q (remove_counted os reason f q).0 e same
      | inr e ↦ Shrinks-without f.name q (remove_counted os reason f q).0 e same
    ]

remove_all-Shrinks :
    (os : Os) (reason : Reason) (files : List Entry) (q : Queue)
    → Shrinks q (remove_all os reason files q).0
unfolding remove_all
remove_all-Shrinks os reason [] q = Shrinks-refl q
remove_all-Shrinks os reason (f ∷ files) q =
    Shrinks-trans q (remove_counted os reason f q).0 (remove_all os reason (f ∷ files) q).0
      (remove_counted-Shrinks os reason f q)
      (remove_all-Shrinks os reason files (remove_counted os reason f q).0)

pub update_health_level-queued :
    (q : Queue) → (update_health_level q).images_queued ≡ q.images_queued
unfolding update_health_level set_health maybe_resume_capture
update_health_level-queued q = ground arith

recalculate_oldest-queued :
    (os : Os) (q : Queue) → (recalculate_oldest os q).images_queued ≡ q.images_queued
unfolding recalculate_oldest
recalculate_oldest-queued os q = elim (Option-cases (list_files_sorted os q.dir)) [
  | inl e ↦ rw (e, recalculate_oldest) refl
  | inr (files, e) ↦ rw (e, recalculate_oldest) refl
]

settle-Shrinks : (os : Os) (r : Queue × ℕ) → Shrinks r.0 (settle os r).0
unfolding settle
settle-Shrinks os (q, zero) = Shrinks-refl q
settle-Shrinks os (q, suc n) =
    Shrinks-same q (update_health_level (recalculate_oldest os q))
      ((update_health_level_same (recalculate_oldest os q)).0 ∙ (recalculate_oldest_same os q).0)
      (update_health_level-queued (recalculate_oldest os q) ∙ recalculate_oldest-queued os q)

pub emergency_thin-Shrinks :
    (os : Os) (keep : Ratio) (q : Queue) → Shrinks q (emergency_thin os keep q).0
unfolding emergency_thin
emergency_thin-Shrinks os keep q = elim (Option-cases (list_files_sorted os q.dir)) [
  | inl e ↦ rw (e, emergency_thin) (Shrinks-refl q)
  | inr (files, e) ↦
      let n = length files in
      let r = remove_all os by_thinning (take (n - keep_count keep n) files) q in
      let thinned =
        Shrinks-trans q r.0 (settle os r).0
          (remove_all-Shrinks os by_thinning (take (n - keep_count keep n) files) q)
          (settle-Shrinks os r) in
      rw (e, emergency_thin)
        (elim (Bool-cases (n == 0)) [
          | inl z ↦ rw z (Shrinks-refl q)
          | inr z ↦ elim (Bool-cases (leb n (keep_count keep n))) [
            | inl k ↦ rw (z, k) (Shrinks-refl q)
            | inr k ↦ rw (z, k) thinned
          ]
        ])
]

space_loop-Shrinks :
    (os : Os) (needed : ℕ) (files : List Entry) (q : Queue)
    → Shrinks q (space_loop os needed files q).0
unfolding space_loop
space_loop-Shrinks os needed [] q = Shrinks-refl q
space_loop-Shrinks os needed (f ∷ files) q =
    let first = remove_counted-Shrinks os by_thinning f q in
    elim (Bool-cases (has_space_for_image os needed (remove_counted os by_thinning f q).0)) [
      | inl e ↦ rw e first
      | inr e ↦ rw e (
          Shrinks-trans q (remove_counted os by_thinning f q).0
            (space_loop os needed files (remove_counted os by_thinning f q).0).0 first
            (space_loop-Shrinks os needed files (remove_counted os by_thinning f q).0))
    ]

space_loop-Tracks :
    (os : Os) (needed : ℕ) (files : List Entry) (q : Queue)
    → All (IsListed q.dir) files
    → Tracks q
    → Tracks (space_loop os needed files q).0
unfolding space_loop
space_loop-Tracks os needed [] q l t = t
space_loop-Tracks os needed (f ∷ files) q l t =
    let first = remove_counted-Tracks os by_thinning f q l.0 t in
    elim (Bool-cases (has_space_for_image os needed (remove_counted os by_thinning f q).0)) [
      | inl e ↦ rw e first
      | inr e ↦ rw e (
          space_loop-Tracks os needed files (remove_counted os by_thinning f q).0
            (remove_counted-IsListed os by_thinning f q files l.1) first)
    ]

settle_space-Tracks : (os : Os) (r : Queue × ℕ) → Tracks r.0 → Tracks (settle_space os r)
settle_space-Tracks os (q, zero) t = t
settle_space-Tracks os (q, suc n) t =
    let k = recalculate_oldest_same os q in Counts-subst k.0 k.1 k.2 t

settle_space-Shrinks : (os : Os) (r : Queue × ℕ) → Shrinks r.0 (settle_space os r)
settle_space-Shrinks os (q, zero) = Shrinks-refl q
settle_space-Shrinks os (q, suc n) =
    Shrinks-same q (recalculate_oldest os q) (recalculate_oldest_same os q).0
      (recalculate_oldest-queued os q)

pub emergency_thin_for_space-Tracks :
    (os : Os) (needed : ℕ) (q : Queue)
    → Tracks q
    → Tracks (emergency_thin_for_space os needed q)
      × Shrinks q (emergency_thin_for_space os needed q)
unfolding emergency_thin_for_space
emergency_thin_for_space-Tracks os needed q t = elim (Option-cases (list_files_sorted os q.dir)) [
  | inl e ↦ rw (e, emergency_thin_for_space) (t, Shrinks-refl q)
  | inr (files, e) ↦
      let gone = take (length files - 1) files in
      let r = space_loop os needed gone q in
      let listed = list_files_sorted-IsListed os q.dir files t.distinct e in
      let tracked = settle_space-Tracks os r (
        space_loop-Tracks os needed gone q
          (All-take (IsListed q.dir) (length files - 1) files listed) t) in
      let shrunk =
        Shrinks-trans q r.0 (settle_space os r) (space_loop-Shrinks os needed gone q)
          (settle_space-Shrinks os r) in
      rw (e, emergency_thin_for_space)
        (elim (Bool-cases (leb (length files) 1)) [
          | inl k ↦ rw k (t, Shrinks-refl q)
          | inr k ↦ rw k (tracked, shrunk)
        ])
]
