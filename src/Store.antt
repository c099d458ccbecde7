-- ===== src/Store.antt =====
-- The durable state (src/store, include/cgw/fota/store).
pub mod CloudState
pub mod Access
pub mod FotaState
pub mod FrameworkStore
pub mod FotaStateStore
pub mod FotaStateRecovery
pub mod Serializer
pub mod CloudSerializer
