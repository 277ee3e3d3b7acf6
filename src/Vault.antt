-- ===== src/Vault.antt =====
-- The per-pass vault v2 (src/domain/vaultV2.ts): the reference model of the vault's lock script. A
-- transition is validated against the immutable policy and the state before it.
pub mod Types
pub mod Checks
pub mod Actions
pub mod Facts
pub mod Spec
pub mod Guards
pub mod Payout
pub mod Owner
pub mod Refinement
pub mod History
pub mod Exit
mod Tests
