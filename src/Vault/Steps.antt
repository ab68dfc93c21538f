-- ===== src/Vault/Steps.antt =====
-- The instructions as calls, and sequences of them: anybody may send any call at any time.
use recovery_guardian_contra.Vault.Handlers.{
  execute_transfer, execute_recovery, abort_recovery, resume_recovery, pause_recovery,
  initiate_recovery, register,
}
use recovery_guardian_contra.Prelude.Results.{err, ok}
use recovery_guardian_contra.Account.{Vault, VetoConfigAccount}
use recovery_guardian_contra.Vault.Context.{Effect, Intent, Transaction, Deployment, Outcome}
use recovery_guardian_contra.Prelude.{refl, ◌≡◌, [], ◌∷◌, ℕ, List, Bytes}

pub data Call : Type 0 where
  registering :
      (owner recovery_owner : Bytes) (veto : VetoConfigAccount) (config_nonce ed25519_index : ℕ)
      → Call
  initiating : (intent : Intent) (ed25519_index : ℕ) → Call
  pausing : (pause_authority : Bytes) → Call
  resuming : (signers : List Bytes) (ed25519_index : ℕ) → Call
  aborting : (abort_authority : Bytes) → Call
  executing : (intent : Intent) → Call
  transferring : (owner vault_sol destination : Bytes) (amount : ℕ) → Call

abbrev pub vault_after : Outcome → Vault → Vault
vault_after (ok (after, effect)) vault = after
vault_after (err _) vault = vault

-- What holds of every result that a call may return holds of the account afterwards.
pub after_outcome :
    {P : Vault → Type 0} (outcome : Outcome) (vault : Vault)
    → P vault
    → ((after : Vault) (effect : Effect) → outcome ≡ ok (after, effect) → P after)
    → P (vault_after outcome vault)
after_outcome (ok (after, effect)) vault kept granted = granted after effect refl
after_outcome (err e) vault kept granted = kept

module _ (deployment : Deployment) where
  unfoldable pub run_call : Transaction → Call → Vault → Outcome
  run_call t (registering owner recovery_owner veto config_nonce index) =
      register deployment t owner recovery_owner veto config_nonce index
  run_call t (initiating intent index) = initiate_recovery deployment t intent index
  run_call t (pausing authority) = pause_recovery deployment t authority
  run_call t (resuming signers index) = resume_recovery deployment t signers index
  run_call t (aborting authority) = abort_recovery deployment t authority
  run_call t (executing intent) = execute_recovery deployment t intent
  run_call t (transferring owner vault_sol destination amount) =
      execute_transfer deployment t owner vault_sol destination amount

  -- A transaction that fails leaves the account as it was.
  unfoldable pub step : Transaction → Call → Vault → Vault
  step t call vault = vault_after (run_call t call vault) vault

  unfoldable pub run_calls : List (Transaction × Call) → Vault → Vault
  run_calls [] vault = vault
  run_calls ((t, call) ∷ calls) vault = run_calls calls (step t call vault)
