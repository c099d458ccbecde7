-- ===== src/Someip.antt =====
-- The SOME/IP side of the program.
pub mod GenericTransport
pub mod ErrorMapper
