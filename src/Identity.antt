-- ===== src/Identity.antt =====
-- identity_core: who may read what, and which tokens are valid.
pub mod Access
pub mod Dispatch
pub mod Tokens
