-- ===== src/Queue/Dequeue.antt =====
-- What a read of a queue hands out.
use aviationwx_bridge.Prelude.{
  All, Bool, Bool-cases, List, [], arith, false, inl, inr, length, refl, some, true, ◌<◌, ◌==◌, ◌∷◌,
  ◌≡◌, ◌⊎◌,
}
use aviationwx_bridge.Queue.Names.{Name, name_lt}
use aviationwx_bridge.Queue.Disk.{
  Entry, Os, images, is_image, list_files_sorted, lookup, sort_by_name,
}
use aviationwx_bridge.Queue.Disk.Listing.{
  IsSortedByName, listed_present, sort_by_name-IsSortedByName, sort_by_name_facts,
}
use aviationwx_bridge.Queue.State.{Queue}
use aviationwx_bridge.Queue.Reading.{
  dequeue_next, err, last_of, ok, pick_next, queue_empty, queued_image,
}
use aviationwx_bridge.Queue.Tracking.{Tracks}

-- no listed name is before that of the file
abbrev IsFirst : List Entry → Entry → Type 0
IsFirst files f = All (λ (g : Entry). name_lt g.name f.name ≡ false) files

abbrev IsLast : List Entry → Entry → Type 0
IsLast files f = All (λ (g : Entry). name_lt f.name g.name ≡ false) files

last_of-All :
    (P : Entry → Type 0) (f : Entry) (files : List Entry) → All P (f ∷ files) → P (last_of f files)
last_of-All P f [] h = h.0
last_of-All P f (g ∷ files) h = last_of-All P g files h.1

name_lt_irrefl : (n : Name) → name_lt n n ≡ false
name_lt_irrefl [] = refl
name_lt_irrefl (c ∷ n) = ground (arith, name_lt_irrefl n)

last_of-IsLast :
    (f : Entry) (files : List Entry)
    → IsSortedByName (f ∷ files)
    → IsLast (f ∷ files) (last_of f files)
last_of-IsLast f [] h = (name_lt_irrefl f.name, tt)
last_of-IsLast f (g ∷ files) h =
    let last = last_of-IsLast g files h.1 in
    (last_of-All (λ (e : Entry). name_lt e.name f.name ≡ false) g files h.0, last)

-- the file that is asked for: the last or the first of the listing
abbrev IsChosen : Bool → List Entry → Entry → Type 0
IsChosen true files f = IsLast files f
IsChosen false files f = IsFirst files f

abbrev pub Handed : Os → Bool → Queue → Type 0
Handed os newest_first q =
    (f : Entry) × (dequeue_next os newest_first q ≡ ok (queued_image f))
    × (lookup f.name q.dir ≡ some f)
    × (is_image f ≡ true)
    × IsChosen newest_first (sort_by_name (images q.dir)) f

pick_next_lem :
    (newest_first : Bool) (P : Entry → Type 0) (files : List Entry)
    → 0 < length files
    → IsSortedByName files
    → All P files
    → (f : Entry) × (pick_next newest_first files ≡ ok (queued_image f))
      × P f
      × IsChosen newest_first files f
unfolding pick_next
pick_next_lem newest_first P [] n s h = elim n [ ]
pick_next_lem true P (f ∷ files) n s h =
    (last_of f files, refl, last_of-All P f files h, last_of-IsLast f files s)
pick_next_lem false P (f ∷ files) n s h = (f, refl, h.0, (name_lt_irrefl f.name, s.0))

-- In a queue whose counters agree with a readable directory a dequeue fails only if the queue counts
-- no image, and then with the empty error; otherwise it hands out an image of the directory as it
-- stands there, of which no listed name is smaller, or none larger if the newest is asked for.
pub dequeue_next_lem :
    (os : Os) (newest_first : Bool) (q : Queue)
    → Tracks q
    → os.can_read ≡ true
    → ((q.image_count ≡ 0) × (dequeue_next os newest_first q ≡ err queue_empty))
      ⊎ Handed os newest_first q
unfolding dequeue_next list_files_sorted
dequeue_next_lem os newest_first q t r = elim (Bool-cases (q.image_count == 0)) [
  | inl e ↦ inl (ground arith, rw e)
  | inr e ↦
      let files = sort_by_name (images q.dir) in
      let some_file : 0 < length files =
        ground (arith, t.counted, (sort_by_name_facts (images q.dir)).0) in
      let chosen =
        pick_next_lem newest_first (λ f. (lookup f.name q.dir ≡ some f) × (is_image f ≡ true)) files
          some_file (sort_by_name-IsSortedByName (images q.dir))
          (listed_present q.dir t.distinct) in
      inr (chosen.0, rw (e, r, list_files_sorted) chosen.1, chosen.2.0, chosen.2.1, chosen.3)
]
