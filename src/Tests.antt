-- ===== src/Tests.antt =====
-- Runs of the definitions at concrete inputs, and each property applied at one.
pub mod MerkleTests
pub mod OperationsTests
pub mod LedgerTests
pub mod PolicyTests
pub mod GateTests
pub mod ProxyTests
pub mod RulesTests
pub mod BuilderTests
pub mod MaskingTests
pub mod DecisionsTests
