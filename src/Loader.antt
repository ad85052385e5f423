-- ===== src/Loader.antt =====
-- pkg/loader/compose: from a compose project to the kobject data.
pub mod Names
pub mod Labels
pub mod Ports
pub mod Volumes
pub mod Placement
pub mod HealthChecks
pub mod Settings
pub mod Project
pub mod Mapping
pub mod Files
