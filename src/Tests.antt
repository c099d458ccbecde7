-- ===== src/Tests.antt =====
-- Concrete runs: the theorems at concrete inputs.
mod Fixtures
mod OrchestratorTests
mod DataTests
mod Libraries
mod StateFixtures
mod StateStoreTests
mod RecoveryTests
mod ConfigTests
mod InventoryTests
mod ErrorTests
mod RestartTests
