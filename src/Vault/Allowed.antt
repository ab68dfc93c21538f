-- ===== src/Vault/Allowed.antt =====
-- When each instruction of the vault program succeeds, as a condition on the account and the runtime.
pub mod Signers
pub mod Moves
pub mod Enough
pub mod Exact
pub mod Readings
