-- ===== src/Queue/Tracking.antt =====
-- The counters of a queue agree with its directory, and every operation keeps them so.
pub mod Removing
pub mod Operations
pub mod FreeName
pub mod Space
pub mod Storing
pub mod Reachable
use aviationwx_bridge.Prelude.{length, ℕ, ◌≡◌}
use aviationwx_bridge.Queue.Disk.{Dir, images, total}
use aviationwx_bridge.Queue.Disk.Laws.{HasDistinctNames}
use aviationwx_bridge.Queue.State.{Queue}

-- `n` and `bytes` are the number and the bytes of the images of a directory without double names
pub record Counts (dir : Dir) (n : ℕ) (bytes : ℕ) : Type 0 where
  pub counted : n ≡ length (images dir)
  pub sized : bytes ≡ total (images dir)
  pub distinct : HasDistinctNames dir

abbrev pub Tracks : Queue → Type 0
Tracks q = Counts q.dir q.image_count q.total_size_bytes
