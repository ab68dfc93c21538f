-- ===== src/Vault/Ledger/Funds.antt =====
-- Which instruction over the ledger moves lamports.
use mathlib.Core.Path.{subst}
use recovery_guardian_contra.Vault.Granted.{transfer_paid}
use recovery_guardian_contra.Prelude.Results.{ok}
use recovery_guardian_contra.Account.{Vault}
use recovery_guardian_contra.Vault.Context.{lamports_moved, Effect, Transaction, Deployment}
use recovery_guardian_contra.Prelude.{sym, ap, [], ◌∙◌, arith, ◌∷◌, true, some, ◌≢◌, ◌≡◌, ℕ, Bytes}
use recovery_guardian_contra.Vault.Accounts.{
  Program, Ledger, ExecuteTransfer, deployment_of, account_at,
}
use recovery_guardian_contra.Vault.Ledger.{Instruction, vault_key_of, run_instruction}
use recovery_guardian_contra.Vault.Ledger.Calls.{
  rewritten, call_of, IsSigned, run_instruction_granted, called, created,
}
use recovery_guardian_contra.Vault.Steps.{transferring, run_call}
use recovery_guardian_contra.Vault.Confinement.{lamports_need_owner}
use recovery_guardian_contra.Vault.Handlers.{sol_seed, create_vault}

-- A transfer of that amount between those accounts, for a vault in the ledger and with the signature
-- of its current owner; the source is the address derived for the vault's lamports.
pub record IsOwnersTransfer (program : Program) (ledger : Ledger) (instruction : Instruction)
    (source destination : Bytes) (amount : ℕ) : Type 0 where
  pub accounts : ExecuteTransfer
  pub vault : Vault
  pub named : instruction ≡ Instruction.execute_transfer accounts amount
  pub there : account_at ledger accounts.vault.key ≡ some vault
  pub by_owner : accounts.owner.key ≡ vault.owner
  pub signed : accounts.owner.is_signer ≡ true
  pub from_vault : accounts.vault_sol.key ≡ source
  pub to_destination : accounts.destination.key ≡ destination
  pub source_derived :
      source ≡ program.derive (sol_seed ∷ accounts.vault.key ∷ (vault.sol_bump ∷ []) ∷ [])

-- A creation moves nothing.
created_quietly :
    (deployment : Deployment) (creator vault_id : Bytes) (bump sol_bump : ℕ) (vault_sol : Bytes)
    {vault : Vault} {source destination : Bytes} {amount : ℕ}
    → create_vault deployment creator vault_id bump sol_bump vault_sol
      ≢ ok (vault, lamports_moved source destination amount)
unfolding create_vault
created_quietly deployment creator vault_id bump sol_bump vault_sol h = ground arith

owners_call :
    (program : Program) (t : Transaction) (ledger : Ledger) (instruction : Instruction)
    (vault : Vault) (source destination : Bytes) (amount : ℕ) {vault' : Vault} {effect : Effect}
    → call_of instruction ≡ some (transferring vault.owner source destination amount)
    → IsSigned instruction
    → account_at ledger (vault_key_of instruction) ≡ some vault
    → run_call
        (deployment_of program (vault_key_of instruction))
        t
        (transferring vault.owner source destination amount)
        vault
      ≡ ok (vault', effect)
    → IsOwnersTransfer program ledger instruction source destination amount
unfolding run_call
owners_call program t ledger (Instruction.execute_transfer accounts n) vault source destination
      amount named signed there moved =
    let (derived, paid) = transfer_paid _ t vault vault.owner source destination amount moved in
    record {
      accounts = accounts;
      vault = vault;
      named = cc;
      there = there;
      by_owner = cc;
      signed = signed;
      from_vault = cc;
      to_destination = cc;
      source_derived = derived;
    }
owners_call program t ledger _ vault source destination amount named signed there moved = cc

module _ (program : Program) (t : Transaction) (ledger : Ledger) {after : Ledger} where
  -- If an instruction on the ledger succeeds and moves lamports, the rent of a creation aside, then
  -- it is a transfer from the derived address of a vault in the ledger, for that source,
  -- destination and amount, with the signature of the vault's current owner, and every account
  -- reads as before.
  pub ledger_lamports_need_owner :
      (instruction : Instruction) (source destination : Bytes) (amount : ℕ)
      → run_instruction program t instruction ledger
        ≡ ok (after, lamports_moved source destination amount)
      → IsOwnersTransfer program ledger instruction source destination amount
        × ((key : Bytes) → account_at after key ≡ account_at ledger key)
  ledger_lamports_need_owner instruction source destination amount ran =
      let (signed, did) = run_instruction_granted program t ledger instruction ran in
      elim did [
        | created accounts vault_id vault _ _ made _ ↦ absurd (created_quietly _ _ _ _ _ _ made)
        | called call vault vault' named there moved done ↦
            let (by_owner, kept) =
              lamports_need_owner (deployment_of program (vault_key_of instruction)) t vault call
                source destination amount moved in
            (
              owners_call program t ledger instruction vault source destination amount
                  (named ∙ ap (λ c. some c) by_owner) signed there
                  (subst
                    (λ c.
                      run_call (deployment_of program (vault_key_of instruction)) t c vault
                      ≡ ok (vault', lamports_moved source destination amount))
                    by_owner moved),
              λ key.
                  done key
                  ∙ sym (
                      rewritten ledger (vault_key_of instruction) key vault'
                        (there ∙ ap (λ v. some v) (sym kept))),
            )
      ]
