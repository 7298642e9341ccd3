-- ===== src/Station.antt =====
-- internal/station: the outbound ring, the uplink breaker and the delivery of weather posts.
pub mod Ring
pub mod Uplink
pub mod Delivery
pub mod Catchup
pub mod Status
pub mod Polling
pub mod Hub
pub mod Sync
pub mod Ingest
pub mod Health
pub mod Times
mod Examples
