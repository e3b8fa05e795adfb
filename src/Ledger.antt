-- ===== src/Ledger.antt =====
-- crates/cloakpipe-ledger: the evidence records and their builder (src/record.rs), their canonical
-- bytes (src/canonical.rs), the hash chain (src/chain.rs) and the table of records (src/store.rs).
pub mod Record
pub mod Canonical
pub mod Chain
pub mod Table
pub mod Records
pub mod Appends
pub mod Tampering
pub mod Builder
pub mod Metadata
