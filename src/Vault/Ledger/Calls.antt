-- ===== src/Vault/Ledger/Calls.antt =====
-- The call that an instruction makes on the vault that it lists.
use recovery_guardian_contra.Vault.Ledger.Listed.{
  execute_transfer_accounts_lem, execute_recovery_accounts_lem, abort_recovery_accounts_lem,
  resume_recovery_accounts_lem, pause_recovery_accounts_lem, initiate_recovery_accounts_lem,
  register_accounts_lem, create_vault_accounts_lem,
}
use recovery_guardian_contra.Vault.Granted.{transfer_granted}
use mathlib.Core.Path.{subst₂, subst}
use recovery_guardian_contra.Vault.Handlers.{execute_transfer, sol_seed, vault_seed, create_vault}
use recovery_guardian_contra.Vault.Context.{Outcome, Effect, Transaction}
use recovery_guardian_contra.Prelude.Results.{ok_injective, err, ◌>>=◌, ok_injective, >>=-eq-ok, ok}
use recovery_guardian_contra.Account.{Vault}
use recovery_guardian_contra.Prelude.{
  sym, ◌∙◌, ap, refl, inr, [], bytes_eq_iff, ◌∷◌, inl, bytes_eq, Bool-cases, Bytes, true, some, ◌≡◌,
  Option,
}
use recovery_guardian_contra.Vault.Accounts.{
  create_vault_accounts, deployment_of, CreateVault, write_account, Program, Ledger, account_at,
  register_accounts, initiate_recovery_accounts, pause_recovery_accounts, resume_recovery_accounts,
  abort_recovery_accounts, execute_recovery_accounts, execute_transfer_accounts,
}
use recovery_guardian_contra.Vault.Ledger.{written, vault_key_of, run_instruction, Instruction}
use recovery_guardian_contra.Vault.Steps.{
  run_call, Call, registering, initiating, pausing, resuming, aborting, executing, transferring,
}

-- The call that an instruction makes, with the keys of its accounts; a creation makes none.
abbrev pub call_of : Instruction → Option Call
call_of (Instruction.create_vault accounts vault_id) = Option.none
call_of (Instruction.register accounts recovery_owner veto config_nonce index) =
    some (registering accounts.owner.key recovery_owner veto config_nonce index)
call_of (Instruction.initiate_recovery accounts intent index) = some (initiating intent index)
call_of (Instruction.pause accounts) = some (pausing accounts.pause_authority.key)
call_of (Instruction.resume accounts signers index) = some (resuming signers index)
call_of (Instruction.abort accounts) = some (aborting accounts.abort_authority.key)
call_of (Instruction.execute_recovery accounts intent) = some (executing intent)
call_of (Instruction.execute_transfer accounts amount) =
    some (transferring accounts.owner.key accounts.vault_sol.key accounts.destination.key amount)

-- Whoever an instruction acts for by an account has signed the transaction.
abbrev pub IsSigned : Instruction → Type 0
IsSigned (Instruction.create_vault accounts vault_id) = accounts.creator.is_signer ≡ true
IsSigned (Instruction.register accounts _ _ _ _) = accounts.owner.is_signer ≡ true
IsSigned (Instruction.pause accounts) = accounts.pause_authority.is_signer ≡ true
IsSigned (Instruction.abort accounts) = accounts.abort_authority.is_signer ≡ true
IsSigned (Instruction.execute_transfer accounts _) = accounts.owner.is_signer ≡ true
IsSigned _ = Unit {0}

-- What an instruction that succeeds did: it made a vault where there was none, or it made its call.
pub data Ran (program : Program) (t : Transaction) (instruction : Instruction)
    (ledger after : Ledger) (effect : Effect) : Type 0 where
  created :
      (accounts : CreateVault) (vault_id : Bytes) (vault : Vault)
      → instruction ≡ Instruction.create_vault accounts vault_id
      → account_at ledger accounts.vault.key ≡ Option.none
      → create_vault
          (deployment_of program accounts.vault.key)
          accounts.creator.key
          vault_id
          (program.bump_of (vault_seed ∷ accounts.creator.key ∷ vault_id ∷ []))
          (program.bump_of (sol_seed ∷ accounts.vault.key ∷ []))
          accounts.vault_sol.key
        ≡ ok (vault, effect)
      → after ≡ write_account ledger accounts.vault.key vault
      → Ran program t instruction ledger after effect
  called :
      (call : Call) (vault vault' : Vault)
      → call_of instruction ≡ some call
      → account_at ledger (vault_key_of instruction) ≡ some vault
      → run_call (deployment_of program (vault_key_of instruction)) t call vault
        ≡ ok (vault', effect)
      → ((key : Bytes)
          → account_at after key
            ≡ account_at (write_account ledger (vault_key_of instruction) vault') key)
      → Ran program t instruction ledger after effect

-- Writing an account as it is changes no reading.
pub rewritten :
    (ledger : Ledger) (written key : Bytes) (vault : Vault)
    → account_at ledger written ≡ some vault
    → account_at ledger key ≡ account_at (write_account ledger written vault) key
unfolding account_at write_account
rewritten ledger written key vault held = elim (Bool-cases (bytes_eq written key)) [
  | inl same ↦
      rw same (subst (λ k. account_at ledger k ≡ some vault) ((bytes_eq_iff _ _).0 same) held)
  | inr other ↦ rw other refl
]

module _ (program : Program) (t : Transaction) (ledger : Ledger) {after : Ledger}
    {effect : Effect} where
  wrote :
      (outcome : Outcome) (key : Bytes)
      → (outcome >>= written program t ledger key) ≡ ok (after, effect)
      → (vault : Vault) × (outcome ≡ ok (vault, effect)) × (after ≡ write_account ledger key vault)
  wrote (ok (vault, effect')) key h =
      let same : ◌≡◌ {A = Ledger × Effect} (write_account ledger key vault, effect')
          (after, effect) =
        ok_injective h in
      (vault, ap (λ p. ok (vault, p.1)) same, ap (λ p. p.0) (sym same))
  wrote (err error) key h = cc

  called_of :
      (instruction : Instruction) (call : Call) (vault : Vault)
      → call_of instruction ≡ some call
      → account_at ledger (vault_key_of instruction) ≡ some vault
      → (run_call (deployment_of program (vault_key_of instruction)) t call vault
          >>= written program t ledger (vault_key_of instruction))
        ≡ ok (after, effect)
      → Ran program t instruction ledger after effect
  called_of instruction call vault named held h =
      let (vault', ran, done) = wrote _ _ h in
      called call vault vault' named held ran (λ key. ap (λ l. account_at l key) done)

  pub run_instruction_granted :
      (instruction : Instruction)
      → run_instruction program t instruction ledger ≡ ok (after, effect)
      → IsSigned instruction × Ran program t instruction ledger after effect
  unfolding run_instruction run_call
  run_instruction_granted (Instruction.create_vault accounts vault_id) h =
      let ((bump, sol_bump), checked, h1) =
        >>=-eq-ok (create_vault_accounts program ledger accounts vault_id) _ h in
      let (signed, vacant, e, f) =
        create_vault_accounts_lem program ledger accounts vault_id checked in
      let (vault, ran, done) = wrote _ _ h1 in
      (
        signed,
        created accounts vault_id vault refl vacant
            (subst₂
              (λ b c.
                create_vault (deployment_of program accounts.vault.key) accounts.creator.key
                  vault_id b c accounts.vault_sol.key
                ≡ ok (vault, effect))
              e f ran)
            done,
      )
  run_instruction_granted (Instruction.register accounts recovery_owner veto config_nonce index) h =
      let (vault, loaded, h1) = >>=-eq-ok (register_accounts program ledger accounts) _ h in
      let (held, signed) = register_accounts_lem program ledger accounts loaded in
      (signed, called_of _ (registering _ _ _ _ _) vault refl held h1)
  run_instruction_granted (Instruction.initiate_recovery accounts intent index) h =
      let (vault, loaded, h1) =
        >>=-eq-ok (initiate_recovery_accounts program ledger accounts) _ h in
      let held = initiate_recovery_accounts_lem program ledger accounts loaded in
      (tt, called_of _ (initiating _ _) vault refl held h1)
  run_instruction_granted (Instruction.pause accounts) h =
      let (vault, loaded, h1) = >>=-eq-ok (pause_recovery_accounts program ledger accounts) _ h in
      let (held, signed) = pause_recovery_accounts_lem program ledger accounts loaded in
      (signed, called_of _ (pausing _) vault refl held h1)
  run_instruction_granted (Instruction.resume accounts signers index) h =
      let (vault, loaded, h1) = >>=-eq-ok (resume_recovery_accounts program ledger accounts) _ h in
      let held = resume_recovery_accounts_lem program ledger accounts loaded in
      (tt, called_of _ (resuming _ _) vault refl held h1)
  run_instruction_granted (Instruction.abort accounts) h =
      let (vault, loaded, h1) = >>=-eq-ok (abort_recovery_accounts program ledger accounts) _ h in
      let (held, signed) = abort_recovery_accounts_lem program ledger accounts loaded in
      (signed, called_of _ (aborting _) vault refl held h1)
  run_instruction_granted (Instruction.execute_recovery accounts intent) h =
      let (vault, loaded, h1) = >>=-eq-ok (execute_recovery_accounts program ledger accounts) _ h in
      let held = execute_recovery_accounts_lem program ledger accounts loaded in
      (tt, called_of _ (executing _) vault refl held h1)
  run_instruction_granted (Instruction.execute_transfer accounts amount) h =
      let (vault, loaded, h1) = >>=-eq-ok (execute_transfer_accounts program ledger accounts) _ h in
      let (held, signed) = execute_transfer_accounts_lem program ledger accounts loaded in
      let deployment = deployment_of program accounts.vault.key in
      let outcome =
        execute_transfer deployment t accounts.owner.key accounts.vault_sol.key
          accounts.destination.key amount vault in
      let ((vault', effect'), ran, done) = >>=-eq-ok outcome _ h1 in
      let same : ◌≡◌ {A = Ledger × Effect} (ledger, effect') (after, effect) = ok_injective done in
      let (_, kept, _) = transfer_granted deployment t vault _ _ _ amount ran in
      let held' : account_at ledger accounts.vault.key ≡ some vault' =
        held ∙ ap (λ v. some v) (sym kept) in
      (
        signed,
        called (transferring _ _ _ amount) vault vault' refl held
            (ran ∙ ap (λ p. ok (vault', p.1)) same)
            (λ key.
              ap (λ p. account_at p.0 key) (sym same)
              ∙ rewritten ledger accounts.vault.key key vault' held'),
      )
