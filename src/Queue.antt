-- ===== src/Queue.antt =====
-- internal/queue: the image queue of one camera, kept in a directory of timestamped files.
pub mod Names
pub mod Disk
pub mod State
pub mod Removal
pub mod Thinning
pub mod Intake
pub mod Reading
pub mod Tracking
pub mod Health
pub mod Dequeue
pub mod Outcome
pub mod Survivors
pub mod Manager
mod Examples
