-- ===== src/Ota/State.antt =====
-- The two state machines and their images in the wire enumerations (src/ota/state).
pub mod VehicleTask
pub mod Execution
pub mod StateProto
