-- ===== src/Lib.antt =====
-- The recovery guardian: an account, on Solana or on the EVM, that a recovery key can hand to a new
-- owner after a timelock in which veto authorities can pause or abort.
--
-- The program and its model.
--
--   The veto machine is the state of one attempt (none, initiated, paused, executable, aborted,
--   executed), the seconds it has accrued and paused, and the time of its last checkpoint. `project`
--   brings an attempt to the present, and each transition acts on the projected attempt. The vault
--   program keeps one account with the owner, the recovery key, the veto configuration, the attempt and
--   four replay counters. Its instructions check a caller or signatures, run a transition through
--   `apply`, and bump counters. A signature is not checked by the program: the ed25519 precompile
--   checks it in another instruction of the transaction, and `verify_detached` reads that instruction
--   to learn what was signed. What is signed is one of three digests, each over a domain, the cluster
--   of the build, the program, the vault and the purpose's own fields.
--
--   Veto.antt: solana/crates/gradual-veto/src/lib.rs (State, Config, Attempt, project, settle, start,
--     pause, resume, abort, execute). `&mut Attempt` is state passing, `Result` is a result type.
--   Validation.antt: `validate` of the same file.
--   Encoding.antt: the byte encodings of Rust's standard library that the digests use.
--   Cluster.antt: solana/crates/nihilium-recovery-common/src/cluster.rs. `build` has the cfg conditions,
--     and its result `none` is a compile_error!.
--   Digest.antt: solana/crates/nihilium-recovery-common/src/digest.rs.
--   Verify.antt: solana/crates/nihilium-recovery-common/src/verify.rs.
--   Account.antt: solana/programs/nihilium-recovery-vault/src/state.rs.
--   Vault/Handlers.antt: the instructions of solana/programs/nihilium-recovery-vault/src/lib.rs
--     (create_vault, register, initiate_recovery, pause, resume, abort, execute_recovery,
--     execute_transfer, projected_state) and `apply`. Vault/Errors.antt has RecoveryError and
--     map_veto_error, Vault/Context.antt the intent, the events and what the runtime gives, and
--     Vault/Steps.antt sequences of calls by anybody at any clock readings, where a call that fails
--     leaves the account as it was. Vault/Spec.antt has the abstract vault: what an observer sees, and
--     the steps that it may take. Vault/Allowed.antt states when an instruction may succeed,
--     Vault/Liveness.antt follows an open attempt through other calls, and Vault/Bounds.antt has the
--     sizes of the account's fields.
--   Vault/Accounts.antt: the account declarations of the same lib.rs (CreateVault to ProjectedState) with
--     their constraints, and the vault accounts that the program owns, by their keys. Vault/Ledger.antt
--     dispatches an instruction: its accounts are checked, its handler runs on the vault that it lists,
--     and the account is written back. A transaction is a list of instructions, all or nothing.
--   Client.antt: solana/bindings/ed25519.ts (ed25519MultiSignatureInstruction, signAll), the client's
--     side of what verify_detached reads.
--   Client/Digests.antt: solana/bindings/digest.ts (digestsFor, vetoFingerprint and the encodings that
--     they use), the client's side of Digest.antt and of the fingerprint of Account.antt.
--
--   On the EVM the same machine is a Solidity library, and an executor module keeps one configuration and
--   one attempt for each account that installs it. The module checks the signatures itself, by ECDSA over
--   EIP-712 hashes. What it does at the end is one call to the account, which installs a validator.
--
--   Evm/GradualVeto.antt: evm/src/GradualVeto.sol, all of it. Its children put it beside Veto.antt
--     (Translation, Agreement, Differential, Backwards, Validation), where an address is widened to 32
--     bytes with zeros in front.
--   Evm/TypedData.antt: hashIntent, resumeDigest and _domainSeparator of evm/src/RecoveryModule.sol, and
--     the ABI encoding that they use.
--   Evm/RecoveryModule.antt: the storage, the errors, the events and the calls of the same contract
--     (onInstall, onUninstall, initiateRecovery, pause, resume, abort, executeRecovery) and stateOf.
--     Evm/RecoveryModule/Calls.antt has sequences of calls. An account may call the module again while it
--     installs a validator, so what the installation leaves is reached by calls too.
--   Evm/DelegatedTypedData.antt and Evm/Eip7702RecoveryAccount.antt: evm/src/Eip7702RecoveryAccount.sol, the
--     contract that a plain account delegates to. Its calls are register, initiateRecovery, pause, resume,
--     abort, executeRecovery and execute, which runs a batch of calls that may call the account again.
--   Prelude holds the helpers that the components share, Samples the concrete values of the tests.
--
-- Numbers. A `u64`, `u16` or `usize` is a natural number and an `i64` an integer. The saturating and the
-- checked operations are written out at their widths; no operation of the Rust code wraps, and of the
-- Solidity code only the conversion of the block's time to `uint64` does. A `Pubkey` or a
-- `[u8; 32]` is a list of bytes, whose length is a hypothesis where it matters.
--
-- Fuel. The `while` loop of `project` runs on three rounds of fuel. A paused attempt goes round once to be
-- initiated, an initiated one ends in that round, and a third round finds nothing left to do
-- (see Veto/Polling.antt). The Solidity loop has the same rounds (see Evm/GradualVeto/Bounds.antt).
--
-- Parameters. `Hasher.hashv` is SHA-256 over the concatenation of its parts, of which only the length of
-- the digest is assumed. `Sysvar.load_instruction` is load_instruction_at_checked on the
-- instructions sysvar. `Precompile` states what the documentation of the ed25519 precompile says that
-- it checks. `Transaction.clock` is Clock::get, `Transaction.invoke_transfer` the system program's
-- transfer, `Deployment.derive` the derivation of a program address, and `Program.bump_of` the bump
-- that find_program_address finds. `nacl.sign.detached` is an
-- argument of `sign_all`, and SHA-256 of @noble/hashes one of the client's digests. On the EVM,
-- `Deployment.keccak` is keccak256 over the concatenation of its parts, `Deployment.recover` the
-- ECDSA.recoverCalldata of Solady, and `Environment.install_module` the account's `installModule`, which
-- reverts or leaves the storage of the module as its own calls have made it. For a delegated account
-- `hash_typed_data`, `recover`, `try_recover` and `is_valid_signature` are the functions of Solady's EIP712,
-- ECDSA and SignatureCheckerLib that the contract calls, and `call_target` is a call of a batch.
--
-- Not modelled. Anchor's account plumbing (allocation and rent, discriminators, the serialisation of
-- accounts and events) is generated code. Its checks are written out from the declarations: a signer,
-- a writable account, an address, seeds with their bump, an account of the program. A handler on its own
-- takes its signer's key as an argument; that a listed signer has signed is the runtime's rule, and so is
-- the rollback of a failed transaction. Within a transaction the answers of the clock, of the
-- instructions sysvar and of a transfer are those of one `Transaction`. On the EVM, the decoding of a call's
-- data, gas and ether are not modelled, nor are the views beside stateOf and the ERC-1271 answers and token
-- receivers of the delegated account. The other TypeScript bindings and the deployment scripts are glue.
pub mod Prelude
pub mod Veto
pub mod Validation
pub mod Encoding
pub mod Cluster
pub mod Digest
pub mod Verify
pub mod Account
pub mod Vault
pub mod Client
pub mod Evm
mod Samples
