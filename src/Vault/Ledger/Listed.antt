-- ===== src/Vault/Ledger/Listed.antt =====
-- What the checks of the listed accounts give: the vault, and the signature of whom it takes one from.
use recovery_guardian_contra.Vault.Handlers.{sol_seed, vault_seed}
use recovery_guardian_contra.Prelude.Results.{ok}
use recovery_guardian_contra.Account.{Vault}
use recovery_guardian_contra.Prelude.{ℕ, [], ◌∷◌, Bytes, arith, true, some, ◌≡◌, Option}
use recovery_guardian_contra.Vault.Accounts.{
  create_vault_accounts, CreateVault, Register, InitiateRecovery, PauseRecovery, ResumeRecovery,
  AbortRecovery, ExecuteRecovery, ExecuteTransfer, Program, Ledger, account_at, register_accounts,
  initiate_recovery_accounts, pause_recovery_accounts, resume_recovery_accounts,
  abort_recovery_accounts, execute_recovery_accounts, execute_transfer_accounts,
}

module _ (program : Program) (ledger : Ledger) {vault : Vault} where
  pub register_accounts_lem :
      (accounts : Register)
      → register_accounts program ledger accounts ≡ ok vault
      → (account_at ledger accounts.vault.key ≡ some vault) × (accounts.owner.is_signer ≡ true)
  unfolding register_accounts
  register_accounts_lem accounts h = ground arith

  pub initiate_recovery_accounts_lem :
      (accounts : InitiateRecovery)
      → initiate_recovery_accounts program ledger accounts ≡ ok vault
      → account_at ledger accounts.vault.key ≡ some vault
  unfolding initiate_recovery_accounts
  initiate_recovery_accounts_lem accounts h = ground arith

  pub pause_recovery_accounts_lem :
      (accounts : PauseRecovery)
      → pause_recovery_accounts program ledger accounts ≡ ok vault
      → (account_at ledger accounts.vault.key ≡ some vault)
        × (accounts.pause_authority.is_signer ≡ true)
  unfolding pause_recovery_accounts
  pause_recovery_accounts_lem accounts h = ground arith

  pub resume_recovery_accounts_lem :
      (accounts : ResumeRecovery)
      → resume_recovery_accounts program ledger accounts ≡ ok vault
      → account_at ledger accounts.vault.key ≡ some vault
  unfolding resume_recovery_accounts
  resume_recovery_accounts_lem accounts h = ground arith

  pub abort_recovery_accounts_lem :
      (accounts : AbortRecovery)
      → abort_recovery_accounts program ledger accounts ≡ ok vault
      → (account_at ledger accounts.vault.key ≡ some vault)
        × (accounts.abort_authority.is_signer ≡ true)
  unfolding abort_recovery_accounts
  abort_recovery_accounts_lem accounts h = ground arith

  pub execute_recovery_accounts_lem :
      (accounts : ExecuteRecovery)
      → execute_recovery_accounts program ledger accounts ≡ ok vault
      → account_at ledger accounts.vault.key ≡ some vault
  unfolding execute_recovery_accounts
  execute_recovery_accounts_lem accounts h = ground arith

  pub execute_transfer_accounts_lem :
      (accounts : ExecuteTransfer)
      → execute_transfer_accounts program ledger accounts ≡ ok vault
      → (account_at ledger accounts.vault.key ≡ some vault) × (accounts.owner.is_signer ≡ true)
  unfolding execute_transfer_accounts
  execute_transfer_accounts_lem accounts h = ground arith

pub create_vault_accounts_lem :
    (program : Program) (ledger : Ledger) (accounts : CreateVault) (vault_id : Bytes)
    {bump sol_bump : ℕ}
    → create_vault_accounts program ledger accounts vault_id ≡ ok (bump, sol_bump)
    → (accounts.creator.is_signer ≡ true)
      × (account_at ledger accounts.vault.key ≡ Option.none)
      × (bump ≡ program.bump_of (vault_seed ∷ accounts.creator.key ∷ vault_id ∷ []))
      × (sol_bump ≡ program.bump_of (sol_seed ∷ accounts.vault.key ∷ []))
unfolding create_vault_accounts
create_vault_accounts_lem program ledger accounts vault_id h = ground arith
