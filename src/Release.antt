-- ===== src/Release.antt =====
-- internal/update: the check for new releases.
pub mod Checker
mod Examples
