-- ===== src/Contract.antt =====
-- crates/cloakpipe-release/src/contract.rs: what a tool contract says of a call's arguments, and
-- the check of a call. The crate `regex` is the argument `is_match`, from a pattern's source and a
-- text. A constraint is its plain keywords with the two that hold constraints, `properties` and
-- `items`.
pub mod Constraint
pub mod Check
