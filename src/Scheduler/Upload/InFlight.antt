-- ===== src/Scheduler/Upload/InFlight.antt =====
-- No image is in two hands: the marks of the images in flight are the tasks in the channel and in the
-- goroutines, each once, and the goroutines are no more than the pool has.
use aviationwx_bridge.Prelude.{
  Bool, Bool-cases, List, [], ap, arith, false, inl, inr, length, ltb, refl, sym, true, ℕ, ◌++◌,
  ◌+◌, ◌∙◌, ◌∷◌, ◌≡◌, ◌≤◌,
}
use aviationwx_bridge.Queue.Names.{Name, name_eq}
use aviationwx_bridge.Queue.Names.RoundTrip.{name_eq_sound}
use aviationwx_bridge.Scheduler.Upload.{FilePath, UploadTask, UploadWorker, path_eq, path_of}
use aviationwx_bridge.Scheduler.Upload.Schedule.{delete_path, member_path, offer}

abbrev pub one_if : Bool → ℕ
one_if true = 1
one_if false = 0

-- how often a path is marked
abbrev pub copies : FilePath → List FilePath → ℕ
copies p [] = 0
copies p (x ∷ xs) = one_if (path_eq x p) + copies p xs

-- in how many tasks it stands
abbrev pub hands : FilePath → List UploadTask → ℕ
hands p [] = 0
hands p (t ∷ ts) = one_if (path_eq (path_of t) p) + hands p ts

pub path_eq_sound : (a b : FilePath) → path_eq a b ≡ true → a ≡ b
path_eq_sound a b h =
    let cameras : name_eq a.camera b.camera ≡ true = ground arith in
    let files : name_eq a.file b.file ≡ true = ground arith in
    let c = name_eq_sound a.camera b.camera cameras in
    let f = name_eq_sound a.file b.file files in
    ap (λ (x : Name). let r : FilePath = record { camera = x; file = a.file } in r) c
    ∙ ap (λ (x : Name). let r : FilePath = record { camera = b.camera; file = x } in r) f

copies_eq : (a b : FilePath) (xs : List FilePath) → path_eq a b ≡ true → copies b xs ≡ copies a xs
copies_eq a b xs h = ap (λ p. copies p xs) (sym (path_eq_sound a b h))

copies_unmarked : (p : FilePath) (xs : List FilePath) → member_path p xs ≡ false → copies p xs ≡ 0
copies_unmarked p [] h = refl
copies_unmarked p (x ∷ xs) h = elim (Bool-cases (path_eq x p)) [
  | inl e ↦ absurd (cc (rw e at h))
  | inr e ↦ rw e (omega (arith, copies_unmarked p xs (rw e at h)))
]

pub copies-delete_self :
    (p q : FilePath) (xs : List FilePath) → path_eq p q ≡ true → copies q (delete_path p xs) ≡ 0
copies-delete_self p q [] h = refl
copies-delete_self p q (x ∷ xs) h = elim (Bool-cases (path_eq x p)) [
  | inl e ↦ rw e (copies-delete_self p q xs h)
  | inr e ↦
      let differs : path_eq x q ≡ false = ap (λ r. path_eq x r) (sym (path_eq_sound p q h)) ∙ e in
      rw (e, differs) (omega (arith, copies-delete_self p q xs h))
]

pub copies-delete_other :
    (p q : FilePath) (xs : List FilePath)
    → path_eq p q ≡ false
    → copies q (delete_path p xs) ≡ copies q xs
copies-delete_other p q [] h = refl
copies-delete_other p q (x ∷ xs) h = elim (Bool-cases (path_eq x p)) [
  | inl e ↦
      let differs : path_eq x q ≡ false = ap (λ r. path_eq r q) (path_eq_sound x p e) ∙ h in
      rw (e, differs) (omega (arith, copies-delete_other p q xs h))
  | inr e ↦ rw e (ap (λ n. one_if (path_eq x q) + n) (copies-delete_other p q xs h))
]

pub hands-append :
    (p : FilePath) (ts us : List UploadTask) → hands p (ts ++ us) ≡ hands p ts + hands p us
hands-append p [] us = omega arith
hands-append p (t ∷ ts) us = omega (arith, hands-append p ts us)

-- the marks agree with the tasks, and none is double
pub record IsMarked (w : UploadWorker) (running : List UploadTask) : Type 0 where
  pub marked : (f : FilePath) → copies f w.in_flight ≡ hands f w.work_chan + hands f running
  pub single : (f : FilePath) → copies f w.in_flight ≤ 1

pub IsMarked-same :
    (w r : UploadWorker) (running : List UploadTask)
    → r.in_flight ≡ w.in_flight
    → r.work_chan ≡ w.work_chan
    → IsMarked w running
    → IsMarked r running
IsMarked-same w r running h k m = record {
  marked = λ f. ap (λ x. copies f x) h ∙ m.marked f ∙ ap (λ x. hands f x + hands f running) (sym k);
  single = λ f. omega (arith, ap (λ x. copies f x) h, m.single f);
}

mark_new :
    (task : UploadTask) (w : UploadWorker) (running : List UploadTask) (f : FilePath)
    → member_path (path_of task) w.in_flight ≡ false
    → IsMarked w running
    → one_if (path_eq (path_of task) f) + copies f w.in_flight ≤ 1
mark_new task w running f h m =
    let none_yet = copies_unmarked (path_of task) w.in_flight h in
    elim (Bool-cases (path_eq (path_of task) f)) [
      | inl e ↦ rw e (omega (arith, copies_eq (path_of task) f w.in_flight e, none_yet))
      | inr e ↦ rw e (omega (arith, m.single f))
    ]

unmark_new :
    (p f : FilePath) (xs : List FilePath)
    → member_path p xs ≡ false
    → copies f (delete_path p (p ∷ xs)) ≡ copies f xs
unmark_new p f xs h = elim (Bool-cases (path_eq p f)) [
  | inl e ↦ copies-delete_self p f (p ∷ xs) e ∙ sym (copies_eq p f xs e ∙ copies_unmarked p xs h)
  | inr e ↦ copies-delete_other p f (p ∷ xs) e ∙ rw e (omega arith)
]

pub offer-IsMarked :
    (task : UploadTask) (w : UploadWorker) (running : List UploadTask)
    → IsMarked w running
    → IsMarked (offer task w).0 running
unfolding offer
offer-IsMarked task w running m = elim (Bool-cases (member_path (path_of task) w.in_flight)) [
  | inl e ↦ rw e m
  | inr e ↦ elim (Bool-cases (ltb (length w.work_chan) w.chan_capacity)) [
    | inl k ↦
        rw (e, k)
          (record {
            marked = λ f. omega (arith, m.marked f, hands-append f w.work_chan (task ∷ []));
            single = λ f. mark_new task w running f e m;
          })
    | inr k ↦
        rw (e, k)
          (record {
            marked = λ f. unmark_new (path_of task) f w.in_flight e ∙ m.marked f;
            single = λ f. omega (arith, unmark_new (path_of task) f w.in_flight e, m.single f);
          })
  ]
]
