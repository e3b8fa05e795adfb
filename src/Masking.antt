-- ===== src/Masking.antt =====
-- crates/cloakpipe-core: entities and categories (src/lib.rs), the resolver of variant spellings
-- (src/resolver.rs), the vault of tokens (src/vault.rs) and the replacer (src/replacer.rs). A text is
-- its bytes.
pub mod Entity
pub mod Assoc
pub mod Resolver
pub mod Vault
pub mod Replacer
pub mod Tokens
pub mod Known
pub mod Roundtrip
