-- ===== src/Scheduler.antt =====
-- internal/scheduler: the capture gate, degraded mode, backoff, the capture and upload workers and the
-- orchestrator.
pub mod Gate
pub mod Degraded
pub mod Backoff
pub mod Upload
pub mod Orchestrator
pub mod Capture
mod Examples
