-- ===== src/Verify.antt =====
-- crates/cloakpipe-verify: the offline verifier, which shares no code with the gate.
pub mod Decisions
pub mod Tally
pub mod Hashes
pub mod Accepts
