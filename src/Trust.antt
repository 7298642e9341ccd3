-- ===== src/Trust.antt =====
-- The trust in the upload servers: the pinned SSH host keys of internal/upload and the rosters of
-- trusted keys of internal/update.
pub mod HostKeys
pub mod Fingerprints
pub mod Roster
mod Examples
