-- ===== src/Proxy.antt =====
-- crates/cloakpipe-mcp/src/proxy.rs: the coordination of side-effecting calls and their replies with
-- the operations store, and what becomes of the calls in flight at exit.
pub mod Pending
pub mod Coordinate
pub mod Forwarded
pub mod Answered
pub mod Exit
pub mod Swept
