-- ===== src/Config.antt =====
-- The configuration of the service (src/config).
pub mod FotaConfig
pub mod Checks
pub mod From
pub mod Bounds
pub mod Ids
