-- ===== src/Config.antt =====
-- internal/config: the data of the configuration, the service that keeps it, and the ids of cameras and
-- stations, which are the names of their files.
pub mod Ids
mod Examples
pub mod Migrate
pub mod Service
pub mod Station
pub mod Api
pub mod Files
pub mod Upload
pub mod Values
pub mod Settings
