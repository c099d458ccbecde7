-- ===== src/Ota/Orchestrator.antt =====
-- FotaOrchestrator (src/ota/fota_orchestrator.cpp). `System` has its state and its basic actions, the
-- other modules one group of its methods each, and the modules after `Step` what is proved of them.
pub mod System
pub mod Persist
pub mod Check
pub mod Download
pub mod Permit
pub mod Outbox
pub mod Finalize
pub mod Execute
pub mod Control
pub mod Step
pub mod Frames
pub mod Untouched
pub mod Sending
pub mod Sequence
pub mod Numbering
pub mod Reporting
pub mod Transitions
pub mod Moves
pub mod Permission
pub mod Recovery
pub mod Restart
pub mod Running
pub mod Consent
pub mod Failures
pub mod Commands
