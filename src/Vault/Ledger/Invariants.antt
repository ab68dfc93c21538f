-- ===== src/Vault/Ledger/Invariants.antt =====
-- What every vault of the ledger has from its creation on, if the calls that are made keep it.
use recovery_guardian_contra.Vault.Errors.{Error}
use mathlib.Core.Path.{subst, subst₂}
use recovery_guardian_contra.Prelude.Results.{>>=-eq-ok, ok_injective, err, ok, Result}
use recovery_guardian_contra.Account.{Vault}
use recovery_guardian_contra.Vault.Context.{Effect, Transaction}
use recovery_guardian_contra.Prelude.{
  inr, refl, ◌∙◌, ap, sym, ◌∷◌, [], All, inl, some, Bytes, List, ◌≡◌,
}
use mathlib.Core.Option.{some_inj}
use recovery_guardian_contra.Vault.Accounts.{
  Program, Ledger, deployment_of, account_at, write_account,
}
use recovery_guardian_contra.Vault.Ledger.{
  Instruction, vault_key_of, run_instruction, run_instructions, run_transactions, ledger_after,
}
use recovery_guardian_contra.Vault.Ledger.Calls.{call_of, run_instruction_granted, called, created}
use recovery_guardian_contra.Vault.Ledger.Histories.{account_at-write}
use recovery_guardian_contra.Vault.Steps.{Call, run_call}
use recovery_guardian_contra.Vault.Handlers.{sol_seed, vault_seed, create_vault}

-- The calls that the instructions make are of a kind.
abbrev pub MakesOnly : (Call → Type 0) → Instruction → Type 0
MakesOnly Allowed instruction = (call : Call) → call_of instruction ≡ some call → Allowed call

abbrev pub AllMakeOnly : (Call → Type 0) → List (Transaction × List Instruction) → Type 0
AllMakeOnly Allowed [] = Unit {0}
AllMakeOnly Allowed ((t, instructions) ∷ transactions) =
    All (MakesOnly Allowed) instructions × AllMakeOnly Allowed transactions

-- What is created by the program's own creation, at an address with bumps that the program finds.
abbrev pub IsBorn : Program → (Bytes → Vault → Type 0) → Type 0
IsBorn program Holds =
    (key creator vault_id vault_sol : Bytes) (vault : Vault) (effect : Effect)
    → create_vault (deployment_of program key) creator vault_id
        (program.bump_of (vault_seed ∷ creator ∷ vault_id ∷ []))
        (program.bump_of (sol_seed ∷ key ∷ [])) vault_sol
      ≡ ok (vault, effect)
    → Holds key vault

abbrev pub IsKept : Program → (Call → Type 0) → (Bytes → Vault → Type 0) → Type 0
IsKept program Allowed Holds =
    (key : Bytes) (t : Transaction) (call : Call) (vault after : Vault) (effect : Effect)
    → Allowed call
    → run_call (deployment_of program key) t call vault ≡ ok (after, effect)
    → Holds key vault
    → Holds key after

module _ (program : Program) (Allowed : Call → Type 0) (Holds : Bytes → Vault → Type 0)
    (born : IsBorn program Holds) (kept : IsKept program Allowed Holds) where
  abbrev pub AllHold : Ledger → Type 0
  AllHold ledger =
      (key : Bytes) (vault : Vault) → account_at ledger key ≡ some vault → Holds key vault

  written-AllHold :
      (ledger : Ledger) (written : Bytes) (fresh : Vault)
      → AllHold ledger
      → Holds written fresh
      → AllHold (write_account ledger written fresh)
  written-AllHold ledger written fresh all holds key vault there =
      elim (account_at-write program key ledger written fresh) [
        | inl (e, now) ↦ subst₂ (λ k v. Holds k v) e (some_inj.0 (sym now ∙ there)) holds
        | inr (_, same) ↦ all key vault (sym same ∙ there)
      ]

  run_instruction-AllHold :
      (t : Transaction) (instruction : Instruction) (ledger : Ledger) {after : Ledger}
      {effect : Effect}
      → MakesOnly Allowed instruction
      → run_instruction program t instruction ledger ≡ ok (after, effect)
      → AllHold ledger
      → AllHold after
  run_instruction-AllHold t instruction ledger {after} {effect} allowed ran all =
      let (_, did) = run_instruction_granted program t ledger instruction ran in
      elim did [
        | created accounts vault_id fresh _ _ made done ↦ λ key vault there.
            written-AllHold ledger accounts.vault.key fresh all
              (born accounts.vault.key accounts.creator.key vault_id accounts.vault_sol.key fresh
                effect made)
              key vault (ap (λ l. account_at l key) (sym done) ∙ there)
        | called call before vault' named held ran' done ↦ λ key vault there.
            written-AllHold ledger (vault_key_of instruction) vault' all
              (kept (vault_key_of instruction) t call before vault' effect (allowed call named) ran'
                (all _ before held))
              key vault (sym (done key) ∙ there)
      ]

  run_instructions-AllHold :
      (t : Transaction) (instructions : List Instruction) (ledger : Ledger) {after : Ledger}
      → All (MakesOnly Allowed) instructions
      → run_instructions program t instructions ledger ≡ ok after
      → AllHold ledger
      → AllHold after
  unfolding run_instructions
  run_instructions-AllHold t [] ledger allowed ran all = subst AllHold (ok_injective ran) all
  run_instructions-AllHold t (instruction ∷ instructions) ledger allowed ran all =
      let ((middle, effect), first, rest) =
        >>=-eq-ok (run_instruction program t instruction ledger) _ ran in
      run_instructions-AllHold t instructions middle allowed.1 rest
        (run_instruction-AllHold t instruction ledger allowed.0 first all)

  ledger_after-AllHold :
      (ledger : Ledger) (outcome : Result Error Ledger)
      → AllHold ledger
      → ((after : Ledger) → outcome ≡ ok after → AllHold after)
      → AllHold (ledger_after outcome ledger)
  ledger_after-AllHold ledger (ok after) all succeeded = succeeded after refl
  ledger_after-AllHold ledger (err error) all succeeded = all

  run_transactions-AllHold :
      (transactions : List (Transaction × List Instruction)) (ledger : Ledger)
      → AllMakeOnly Allowed transactions
      → AllHold ledger
      → AllHold (run_transactions program transactions ledger)
  unfolding run_transactions
  run_transactions-AllHold [] ledger allowed all = all
  run_transactions-AllHold ((t, instructions) ∷ transactions) ledger allowed all =
      run_transactions-AllHold transactions _ allowed.1 (
        ledger_after-AllHold ledger (run_instructions program t instructions ledger) all
          (λ after ran. run_instructions-AllHold t instructions ledger allowed.0 ran all))

  -- From the empty ledger, every vault has it.
  pub ledger_vaults_hold :
      (transactions : List (Transaction × List Instruction)) (key : Bytes) (vault : Vault)
      → AllMakeOnly Allowed transactions
      → account_at (run_transactions program transactions []) key ≡ some vault
      → Holds key vault
  unfolding account_at
  ledger_vaults_hold transactions key vault allowed there =
      run_transactions-AllHold transactions [] allowed (λ k v h. cc) key vault there
