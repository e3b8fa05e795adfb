-- ===== src/Rules.antt =====
-- crates/cloakpipe-release/src/rules.rs: the rules of a tool beyond its arguments' constraints, and
-- the rules of a tool as a whole (`ToolRule` of contract.rs).
pub mod Condition
pub mod Parser
pub mod Parsed
pub mod Printed
pub mod Reparsed
pub mod Duration
pub mod Groups
pub mod Key
pub mod Tool
pub mod Closed
