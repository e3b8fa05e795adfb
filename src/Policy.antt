-- ===== src/Policy.antt =====
-- crates/cloakpipe-policy: the store of forwarded calls (src/counters.rs) and the decision on a call
-- (src/lib.rs). Cedar itself is a parameter: what it answers to a request.
pub mod Counters
pub mod Engine
pub mod Windows
