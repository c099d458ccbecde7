-- ===== src/Fingerprint.antt =====
-- The fingerprint of the software inventory.
pub mod CanonicalEncoder
pub mod Inventory
