-- ===== src/Decisions.antt =====
-- crates/cloakpipe-ledger: the chain of the gate's decisions (src/decision.rs) and the epochs that
-- seal it (src/epoch.rs), the two tables of src/store.rs that keep them, and the scheduler that
-- seals and anchors (src/anchoring.rs).
pub mod Entry
pub mod Epoch
pub mod Hex
pub mod Table
pub mod Store
pub mod Steps
pub mod Spec
pub mod Refinement
pub mod Anchoring
pub mod Promise
pub mod Tiles
pub mod Sealing
pub mod Chained
