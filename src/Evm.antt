-- ===== src/Evm.antt =====
-- The EVM half of the recovery guardian: evm/src.
pub mod GradualVeto
pub mod TypedData
pub mod RecoveryModule
pub mod DelegatedTypedData
pub mod Eip7702RecoveryAccount
mod Samples
mod VetoTests
mod ModuleTests
mod AccountTests
