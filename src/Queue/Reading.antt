-- ===== src/Queue/Reading.antt =====
-- `DequeueNext`, `Dequeue`, `DequeueBatch` and `Peek` of internal/queue/queue.go: they read the
-- directory and leave the queue as it is.
use mathlib.Core.List.{reverse}
use aviationwx_bridge.Prelude.{
  Bool, List, [], false, if◌then◌else◌, length, ltb, map, none, some, take, ℕ, ◌==◌, ◌∷◌,
}
use aviationwx_bridge.Queue.Names.{parse_timestamp}
use aviationwx_bridge.Queue.Disk.{Entry, Os, list_files_sorted}
use aviationwx_bridge.Queue.State.{Queue}
use aviationwx_bridge.Queue.Removal.{QueuedImage}

pub data ReadError : Type 0 where
  queue_empty read_failed : ReadError

pub data ReadResult {ℓ} (A : Type ℓ) : Type ℓ where
  ok : A → ReadResult A
  err : ReadError → ReadResult A

unfoldable pub queued_image : Entry → QueuedImage
queued_image file = record {
  filename = file.name;
  timestamp = parse_timestamp file.name;
  size_bytes = file.size;
}

-- the last file of a list that is not empty
abbrev pub last_of : Entry → List Entry → Entry
last_of file [] = file
last_of file (f ∷ files) = last_of f files

unfoldable pub pick_next : Bool → List Entry → ReadResult QueuedImage
pick_next newest_first [] = err queue_empty
pick_next newest_first (file ∷ files) =
    ok (queued_image (if newest_first then last_of file files else file))

unfoldable pub dequeue_next : Os → Bool → Queue → ReadResult QueuedImage
dequeue_next os newest_first q =
    if q.image_count == 0 then err queue_empty else elim (list_files_sorted os q.dir) [
      | none ↦ err read_failed
      | some files ↦ pick_next newest_first files
    ]

unfoldable pub dequeue : Os → Queue → ReadResult QueuedImage
dequeue os q = dequeue_next os false q

unfoldable pub batch : ℕ → Bool → List Entry → List QueuedImage
batch count newest_first files =
    let n = if ltb (length files) count then length files else count in
    if newest_first
    then take n (reverse (map queued_image files))
    else take n (map queued_image files)

unfoldable pub dequeue_batch : Os → ℕ → Bool → Queue → ReadResult (List QueuedImage)
dequeue_batch os count newest_first q =
    if q.image_count == 0 then err queue_empty else elim (list_files_sorted os q.dir) [
      | none ↦ err read_failed
      | some [] ↦ err queue_empty
      | some (file ∷ files) ↦ ok (batch count newest_first (file ∷ files))
    ]

unfoldable pub peek : Os → ℕ → Queue → ReadResult (List QueuedImage)
peek os count q = elim (list_files_sorted os q.dir) [
  | none ↦ err read_failed
  | some files ↦ ok (batch count false files)
]
