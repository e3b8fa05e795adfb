-- ===== src/Operations.antt =====
-- crates/cloakpipe-mcp/src/operations.rs: the states of a side-effecting call and the operations
-- table. The table is the list of its rows; each SQL statement is the function on rows that its
-- text says, and a transaction that returns an error leaves the rows as they were. The clock is an
-- argument, `now`.
pub mod Rows
pub mod Store
pub mod Table
pub mod Events
pub mod Held
pub mod AtMostOnce
pub mod Done
pub mod Replay
pub mod Keyed
pub mod Called
pub mod Sweep
