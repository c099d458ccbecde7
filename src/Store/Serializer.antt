-- ===== src/Store/Serializer.antt =====
-- The serializer of the report states (src/store/fota_state_serializer.cpp and
-- include/cgw/fota/store/fota_state_serializer.hpp).
pub mod Json
pub mod Envelope
pub mod Values
pub mod Snapshot
pub mod Coding
pub mod Sequence
pub mod LastSuccess
pub mod Dedupe
pub mod ActiveJob
pub mod RoundTrip
