-- ===== src/Queue/Thinning.antt =====
-- `thinQueue` of internal/queue/queue.go: removal from the middle. `stride i c r` is
-- `int(float64(i) * (float64(c) / float64(r)))`, whose rounding is left to the parameter.
use aviationwx_bridge.Prelude.{
  Bool, List, Option, [], drop, false, if◌then◌else◌, leb, length, ltb, none, not, some, suc, take,
  zero, ℕ, ◌&&◌, ◌*◌, ◌++◌, ◌+◌, ◌-◌, ◌/◌, ◌==◌, ◌||◌, ◌∷◌,
}
use aviationwx_bridge.Queue.Disk.{Entry, Os, list_files_sorted}
use aviationwx_bridge.Queue.State.{
  HealthLevel, Queue, QueueConfig, catching_up, critical, degraded, healthy,
}
use aviationwx_bridge.Queue.Removal.{by_thinning, remove_all, settle}

-- `int(float64(MaxFiles) * p)` for the three factors; none is for a healthy queue
unfoldable pub target_count : HealthLevel → ℕ → Option ℕ
target_count healthy max_files = none
target_count catching_up max_files = some (max_files * 8 / 10)
target_count degraded max_files = some (max_files * 6 / 10)
target_count critical max_files = some (max_files * 4 / 10)

abbrev pub nth {ℓ} : {A : Type ℓ} → ℕ → List A → List A
nth i [] = []
nth zero (x ∷ xs) = x ∷ []
nth (suc i) (x ∷ xs) = nth i xs

abbrev pub member : ℕ → List ℕ → Bool
member i [] = false
member i (j ∷ js) = j == i || member i js

-- `removeIndices`: the set of `stride i` for i below the count, those in range; a removed index is
-- listed once
unfoldable pub remove_indices : (ℕ → ℕ) → ℕ → ℕ → List ℕ
remove_indices stride size zero = []
remove_indices stride size (suc i) =
    let rest = remove_indices stride size i in
    if ltb (stride i) size && not (member (stride i) rest) then stride i ∷ rest else rest

abbrev pub pick {ℓ} : {A : Type ℓ} → List ℕ → List A → List A
pick [] xs = []
pick (i ∷ is) xs = nth i xs ++ pick is xs

pub record Bounds : Type 0 where
  pub oldest : ℕ
  pub newest : ℕ

-- the protected files at both ends, lowered to a quarter each where they would cover everything
unfoldable pub protect : QueueConfig → ℕ → Bounds
protect c n =
    if leb n (c.protect_oldest + c.protect_newest)
    then record { oldest = n / 4; newest = n / 4 }
    else record { oldest = c.protect_oldest; newest = c.protect_newest }

-- `files[candidateStart:candidateEnd]`
unfoldable pub candidates : Bounds → List Entry → List Entry
candidates b files = drop b.oldest (take (length files - b.newest) files)

-- how many candidates go: those beyond what the target leaves for the middle
unfoldable pub to_remove_count : Bounds → ℕ → ℕ → ℕ
to_remove_count b target size = size - (target - b.oldest - b.newest)

-- the files that are removed, in the order of the indices; Go ranges over the map in any order
unfoldable pub victims : (ℕ → ℕ → ℕ → ℕ) → Queue → List Entry → List Entry
victims stride q files = elim (target_count q.health_level q.config.max_files) [
  | none ↦ []
  | some target ↦
      let b = protect q.config (length files) in
      let middle = candidates b files in
      let gone = to_remove_count b target (length middle) in
      if leb (length files) target
      then []
      else if leb (length files) (b.oldest + b.newest)
      then []
      else if length middle == 0
      then []
      else if gone == 0
      then []
      else pick (remove_indices (λ i. stride i (length middle) gone) (length middle) gone) middle
]

unfoldable pub thin_queue : (ℕ → ℕ → ℕ → ℕ) → Os → Queue → Queue × ℕ
thin_queue stride os q =
    if not q.config.thinning_enabled then (q, 0) else elim (list_files_sorted os q.dir) [
      | none ↦ (q, 0)
      | some files ↦
          if length files == 0
          then (q, 0)
          else settle os (remove_all os by_thinning (victims stride q files) q)
    ]
