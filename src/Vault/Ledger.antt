-- ===== src/Vault/Ledger.antt =====
-- The program's entry points over all its vaults: an instruction checks the accounts that it lists,
-- runs its handler on the vault among them, and writes that account back. A transaction is a list of
-- instructions, of which either all take effect or none.
pub mod Listed
pub mod Calls
pub mod Follows
pub mod Histories
pub mod Invariants
pub mod Addresses
pub mod Soundness
pub mod Funds
use recovery_guardian_contra.Prelude.Results.{err, ◌>>=◌, ok, Result}
use recovery_guardian_contra.Prelude.{[], ◌∷◌, ℕ, List, Bytes}
use recovery_guardian_contra.Vault.Handlers
use recovery_guardian_contra.Vault.Accounts.{
  CreateVault, Register, InitiateRecovery, PauseRecovery, ResumeRecovery, AbortRecovery,
  ExecuteRecovery, ExecuteTransfer, Program, Ledger, deployment_of, write_account,
  create_vault_accounts, register_accounts, initiate_recovery_accounts, pause_recovery_accounts,
  resume_recovery_accounts, abort_recovery_accounts, execute_recovery_accounts,
  execute_transfer_accounts, projected_state_accounts, ProjectedState,
}
use recovery_guardian_contra.Account.{Vault, VetoConfigAccount}
use recovery_guardian_contra.Vault.Context.{Intent, Transaction, Effect}
use recovery_guardian_contra.Vault.Errors.{Error}

-- An instruction: the accounts that it lists, and its arguments.
pub data Instruction : Type 0 where
  create_vault : (accounts : CreateVault) (vault_id : Bytes) → Instruction
  register :
      (accounts : Register) (recovery_owner : Bytes) (veto : VetoConfigAccount)
      (config_nonce ed25519_index : ℕ)
      → Instruction
  initiate_recovery :
      (accounts : InitiateRecovery) (intent : Intent) (ed25519_index : ℕ) → Instruction
  pause : (accounts : PauseRecovery) → Instruction
  resume : (accounts : ResumeRecovery) (signers : List Bytes) (ed25519_index : ℕ) → Instruction
  abort : (accounts : AbortRecovery) → Instruction
  execute_recovery : (accounts : ExecuteRecovery) (intent : Intent) → Instruction
  execute_transfer : (accounts : ExecuteTransfer) (amount : ℕ) → Instruction

-- The account that an instruction lists as its vault.
abbrev pub vault_key_of : Instruction → Bytes
vault_key_of (create_vault accounts _) = accounts.vault.key
vault_key_of (register accounts _ _ _ _) = accounts.vault.key
vault_key_of (initiate_recovery accounts _ _) = accounts.vault.key
vault_key_of (pause accounts) = accounts.vault.key
vault_key_of (resume accounts _ _) = accounts.vault.key
vault_key_of (abort accounts) = accounts.vault.key
vault_key_of (execute_recovery accounts _) = accounts.vault.key
vault_key_of (execute_transfer accounts _) = accounts.vault.key

module _ (program : Program) (t : Transaction) where
  -- The vault as the handler leaves it is written back.
  abbrev pub written : Ledger → Bytes → Vault × Effect → Result Error (Ledger × Effect)
  written ledger key (after, effect) = ok (write_account ledger key after, effect)

  unfoldable pub run_instruction : Instruction → Ledger → Result Error (Ledger × Effect)
  unfolding create_vault_accounts register_accounts initiate_recovery_accounts
      pause_recovery_accounts resume_recovery_accounts abort_recovery_accounts
      execute_recovery_accounts execute_transfer_accounts write_account
  run_instruction (create_vault accounts vault_id) ledger = do
    bumps ← create_vault_accounts program ledger accounts vault_id
    outcome ←
        Handlers.create_vault (deployment_of program accounts.vault.key) accounts.creator.key
          vault_id bumps.0 bumps.1 accounts.vault_sol.key
    written ledger accounts.vault.key outcome
  run_instruction (register accounts recovery_owner veto config_nonce index) ledger = do
    vault ← register_accounts program ledger accounts
    outcome ←
        Handlers.register (deployment_of program accounts.vault.key) t accounts.owner.key
          recovery_owner veto config_nonce index vault
    written ledger accounts.vault.key outcome
  run_instruction (initiate_recovery accounts intent index) ledger = do
    vault ← initiate_recovery_accounts program ledger accounts
    outcome ←
        Handlers.initiate_recovery (deployment_of program accounts.vault.key) t intent index vault
    written ledger accounts.vault.key outcome
  run_instruction (pause accounts) ledger = do
    vault ← pause_recovery_accounts program ledger accounts
    outcome ←
        Handlers.pause_recovery (deployment_of program accounts.vault.key) t
          accounts.pause_authority.key vault
    written ledger accounts.vault.key outcome
  run_instruction (resume accounts signers index) ledger = do
    vault ← resume_recovery_accounts program ledger accounts
    outcome ←
        Handlers.resume_recovery (deployment_of program accounts.vault.key) t signers index vault
    written ledger accounts.vault.key outcome
  run_instruction (abort accounts) ledger = do
    vault ← abort_recovery_accounts program ledger accounts
    outcome ←
        Handlers.abort_recovery (deployment_of program accounts.vault.key) t
          accounts.abort_authority.key vault
    written ledger accounts.vault.key outcome
  run_instruction (execute_recovery accounts intent) ledger = do
    vault ← execute_recovery_accounts program ledger accounts
    outcome ← Handlers.execute_recovery (deployment_of program accounts.vault.key) t intent vault
    written ledger accounts.vault.key outcome
  run_instruction (execute_transfer accounts amount) ledger = do
    vault ← execute_transfer_accounts program ledger accounts
    outcome ←
        Handlers.execute_transfer (deployment_of program accounts.vault.key) t accounts.owner.key
          accounts.vault_sol.key accounts.destination.key amount vault
    ok (ledger, outcome.1)

  -- The instruction `projected_state`, which only reads.
  unfoldable pub read_state : ProjectedState → Ledger → Result Error ℕ
  unfolding projected_state_accounts
  read_state accounts ledger = do
    vault ← projected_state_accounts program ledger accounts
    Handlers.projected_state t vault

  -- The instructions of one transaction, in order, up to the first that fails.
  unfoldable pub run_instructions : List Instruction → Ledger → Result Error Ledger
  unfolding run_instruction
  run_instructions [] ledger = ok ledger
  run_instructions (instruction ∷ instructions) ledger = do
    done ← run_instruction instruction ledger
    run_instructions instructions done.0

-- An error undoes the whole transaction.
abbrev pub ledger_after : Result Error Ledger → Ledger → Ledger
ledger_after (ok after) ledger = after
ledger_after (err error) ledger = ledger

unfoldable pub run_transactions : Program → List (Transaction × List Instruction) → Ledger → Ledger
unfolding run_instructions
run_transactions program [] ledger = ledger
run_transactions program ((t, instructions) ∷ transactions) ledger =
    run_transactions program transactions
      (ledger_after (run_instructions program t instructions ledger) ledger)
