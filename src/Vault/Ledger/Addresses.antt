-- ===== src/Vault/Ledger/Addresses.antt =====
-- The addresses of the vaults, which a recovery does not move.
use recovery_guardian_contra.Vault.Ledger.Invariants.{MakesOnly, ledger_vaults_hold, AllMakeOnly}
use recovery_guardian_contra.Prelude.Results.{ok}
use recovery_guardian_contra.Prelude.{
  All, bytes_eq_iff, arith, some, [], ◌∷◌, ◌∙◌, ◌≡◌, List, Bytes,
}
use recovery_guardian_contra.Vault.Context.{Effect, Transaction, Deployment}
use recovery_guardian_contra.Account.{Vault}
use recovery_guardian_contra.Vault.Accounts.{Program, deployment_of, account_at}
use recovery_guardian_contra.Vault.Ledger.{Instruction, run_transactions}
use recovery_guardian_contra.Vault.Steps.{
  Call, run_call, executing, transferring, aborting, resuming, pausing, initiating, registering,
}
use recovery_guardian_contra.Vault.Handlers.{sol_seed, vault_seed, create_vault}
use recovery_guardian_contra.Vault.Granted.{
  execute_granted, transfer_granted, abort_granted, resume_granted, apply_granted, pause_granted,
  initiate_granted, register_granted,
}
use recovery_guardian_contra.Veto.{execute, abort, resume, pause}

-- What the addresses of a vault are derived from.
pub record SameSeeds (vault after : Vault) : Type 0 where
  pub same_creator : after.creator ≡ vault.creator
  pub same_id : after.vault_id ≡ vault.vault_id
  pub same_bump : after.bump ≡ vault.bump
  pub same_sol_bump : after.sol_bump ≡ vault.sol_bump

call-SameSeeds :
    (deployment : Deployment) (t : Transaction) (vault : Vault) (call : Call) {after : Vault}
    {effect : Effect}
    → run_call deployment t call vault ≡ ok (after, effect)
    → SameSeeds vault after
unfolding run_call
call-SameSeeds deployment t vault (registering owner recovery_owner veto config_nonce index) h =
    ground
      (arith, register_granted deployment t vault owner recovery_owner veto config_nonce index h)
call-SameSeeds deployment t vault (initiating intent index) h =
    ground (arith, initiate_granted deployment t vault intent index h)
call-SameSeeds deployment t vault (pausing authority) h =
    let (reached, _, _, applied, done) = pause_granted deployment t vault authority h in
    ground (arith, apply_granted t vault pause applied)
call-SameSeeds deployment t vault (resuming signers index) h =
    let (_, _, _, _, applied) = resume_granted deployment t vault signers index h in
    ground (arith, apply_granted t vault resume applied)
call-SameSeeds deployment t vault (aborting authority) h =
    let (reached, _, _, applied, done) = abort_granted deployment t vault authority h in
    ground (arith, apply_granted t vault abort applied)
call-SameSeeds deployment t vault (executing intent) h =
    let (reached, _, _, _, applied, done) = execute_granted deployment t vault intent h in
    ground (arith, apply_granted t vault execute applied)
call-SameSeeds deployment t vault (transferring owner vault_sol destination amount) h =
    ground (arith, transfer_granted deployment t vault owner vault_sol destination amount h)

abbrev Anything : Call → Type 0
Anything call = Unit {0}

each_made : (instructions : List Instruction) → All (MakesOnly Anything) instructions
each_made [] = tt
each_made (instruction ∷ instructions) = (λ call named. tt, each_made instructions)

all_made :
    (transactions : List (Transaction × List Instruction)) → AllMakeOnly Anything transactions
all_made [] = tt
all_made ((t, instructions) ∷ transactions) = (each_made instructions, all_made transactions)

module _ (program : Program) where
  -- The account stands at the address that is derived from its creator and id, with the bumps that
  -- are found for its two addresses.
  pub record IsHoused (key : Bytes) (vault : Vault) : Type 0 where
    pub bump_found : vault.bump ≡ program.bump_of (vault_seed ∷ vault.creator ∷ vault.vault_id ∷ [])
    pub derived :
        key ≡ program.derive (vault_seed ∷ vault.creator ∷ vault.vault_id ∷ (vault.bump ∷ []) ∷ [])
    pub sol_bump_found : vault.sol_bump ≡ program.bump_of (sol_seed ∷ key ∷ [])

  created-IsHoused :
      (key creator vault_id vault_sol : Bytes) {vault : Vault} {effect : Effect}
      → create_vault
          (deployment_of program key)
          creator
          vault_id
          (program.bump_of (vault_seed ∷ creator ∷ vault_id ∷ []))
          (program.bump_of (sol_seed ∷ key ∷ []))
          vault_sol
        ≡ ok (vault, effect)
      → IsHoused key vault
  unfolding create_vault
  created-IsHoused key creator vault_id vault_sol {vault} h =
      let bump = program.bump_of (vault_seed ∷ creator ∷ vault_id ∷ []) in
      let address = program.derive (vault_seed ∷ creator ∷ vault_id ∷ (bump ∷ []) ∷ []) in
      ground (arith, bytes_eq_iff key address)

  kept-IsHoused :
      (key : Bytes) (vault after : Vault)
      → SameSeeds vault after
      → IsHoused key vault
      → IsHoused key after
  kept-IsHoused key vault after same housed = record {
    bump_found = rw same.same_bump (rw same.same_creator (rw same.same_id housed.bump_found));
    derived = rw same.same_bump (rw same.same_creator (rw same.same_id housed.derived));
    sol_bump_found = same.same_sol_bump ∙ housed.sol_bump_found;
  }

  reached-IsHoused :
      (transactions : List (Transaction × List Instruction)) (key : Bytes) (vault : Vault)
      → account_at (run_transactions program transactions []) key ≡ some vault
      → IsHoused key vault
  reached-IsHoused transactions key vault =
      ledger_vaults_hold program Anything IsHoused
        (λ k creator vault_id vault_sol fresh effect.
          created-IsHoused k creator vault_id vault_sol {vault = fresh} {effect = effect})
        (λ k t call before after effect allowed ran.
          kept-IsHoused k before after (call-SameSeeds (deployment_of program k) t before call ran))
        transactions key vault (all_made transactions)

  -- From the empty ledger, after any transactions, a vault stands at the address that is derived
  -- from its creator and its id with the bump found for them, its other bump is the one found for
  -- its lamports' address, and two vaults with one creator and one id are at one address.
  pub addresses_are_forever :
      (transactions : List (Transaction × List Instruction)) (key other_key : Bytes)
      (vault other : Vault)
      → account_at (run_transactions program transactions []) key ≡ some vault
      → account_at (run_transactions program transactions []) other_key ≡ some other
      → vault.creator ≡ other.creator
      → vault.vault_id ≡ other.vault_id
      → IsHoused key vault × (key ≡ other_key)
  addresses_are_forever transactions key other_key vault other there there' creator id =
      let housed = reached-IsHoused transactions key vault there in
      let housed' = reached-IsHoused transactions other_key other there' in
      let found = housed.bump_found in
      let found' = housed'.bump_found in
      let derived = housed.derived in let derived' = housed'.derived in (housed, cc)
