-- ===== src/Vault.antt =====
-- The vault program: solana/programs/nihilium-recovery-vault/src/lib.rs.
pub mod Errors
pub mod Context
pub mod Handlers
pub mod Accounts
pub mod Ledger
pub mod Steps
pub mod Granted
pub mod Confinement
pub mod Invariant
pub mod Replay
pub mod Authority
pub mod Window
pub mod Timelock
pub mod Allowed
pub mod Bounds
pub mod Liveness
pub mod Spec
mod Tests
mod AuthorityTests
mod PromiseTests
mod BoundTests
mod LedgerTests
