-- ===== src/Ota.antt =====
-- The vehicle-cloud OTA component (src/ota, include/cgw/fota/ota).
pub mod State
pub mod Messages
pub mod Ports
pub mod Orchestrator
pub mod ProductionPorts
