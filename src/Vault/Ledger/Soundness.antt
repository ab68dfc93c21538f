-- ===== src/Vault/Ledger/Soundness.antt =====
-- The invariant of the vault over the whole ledger.
use recovery_guardian_contra.Account.{Vault}
use recovery_guardian_contra.Vault.Context.{Transaction}
use recovery_guardian_contra.Prelude.{some, ◌≡◌, [], Bytes, List}
use recovery_guardian_contra.Vault.Accounts.{Program, deployment_of, account_at}
use recovery_guardian_contra.Vault.Ledger.{Instruction, run_transactions}
use recovery_guardian_contra.Vault.Ledger.Invariants.{AllMakeOnly, ledger_vaults_hold}
use recovery_guardian_contra.Vault.Invariant.{IsSound, IsTyped, call-IsSound, create_vault-IsSound}

-- From the empty ledger, after any transactions whose registrations have durations of their type
-- `u64`, every vault is sound: while it is registered it has an independent veto configuration, a
-- recovery key without a veto role and a valid attempt, and while it is not it has no attempt.
pub ledger_vaults-IsSound :
    (program : Program) (transactions : List (Transaction × List Instruction)) (key : Bytes)
    (vault : Vault)
    → AllMakeOnly IsTyped transactions
    → account_at (run_transactions program transactions []) key ≡ some vault
    → IsSound vault
ledger_vaults-IsSound program =
    ledger_vaults_hold program IsTyped (λ key. IsSound)
      (λ key creator vault_id vault_sol fresh effect made.
        (create_vault-IsSound _ creator vault_id _ _ vault_sol made).0)
      (λ key t call before after effect typed ran sound.
        call-IsSound (deployment_of program key) t before call typed sound ran)
