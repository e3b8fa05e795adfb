-- ===== src/Receipt.antt =====
-- crates/cloakpipe-receipt: DSSE envelopes (src/dsse.rs) and approval receipts (src/approval.rs).
pub mod Dsse
pub mod OperationId
pub mod Approval
pub mod Accepted
