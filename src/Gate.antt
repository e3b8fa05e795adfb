-- ===== src/Gate.antt =====
-- crates/cloakpipe-mcp/src/gate.rs: the decision on a tool call, without the legacy `certification`
-- feature.
pub mod Denial
pub mod State
pub mod Call
pub mod Steps
pub mod Authorized
