-- ===== src/Vault/Ledger/Histories.antt =====
-- What transactions over the whole ledger do to one vault.
use recovery_guardian_contra.Vault.Ledger.Follows.{
  called_once, Follows-append, Follows-nothing, Follows,
}
use recovery_guardian_contra.Vault.Errors.{Error}
use mathlib.Core.Option.{some_inj}
use mathlib.Core.Path.{subst₂}
use recovery_guardian_contra.Prelude.Results.{err, Result, >>=-eq-ok, ok_injective, ok}
use recovery_guardian_contra.Account.{Vault}
use recovery_guardian_contra.Prelude.{
  bytes_eq_iff, bytes_eq, inr, Bool-cases, sym, inl, ◌≢◌, ap, refl, ◌∙◌, some, ◌⊎◌, ◌≡◌, [], ◌∷◌,
  Bytes, List,
}
use recovery_guardian_contra.Vault.Context.{Effect, Transaction}
use recovery_guardian_contra.Vault.Accounts.{
  Program, Ledger, deployment_of, write_account, account_at,
}
use recovery_guardian_contra.Vault.Ledger.{
  Instruction, vault_key_of, run_instruction, run_instructions, run_transactions, ledger_after,
}
use recovery_guardian_contra.Vault.Ledger.Calls.{
  call_of, IsSigned, run_instruction_granted, called, created,
}
use recovery_guardian_contra.Vault.Steps.{Call, run_call}

-- A call on the vault with a key that one of the instructions makes, signed by whom it acts for.
abbrev pub IsSent : Transaction → List Instruction → Bytes → Transaction × Call → Type 0
IsSent t [] key sent = ⊥
IsSent t (instruction ∷ instructions) key (t', call) =
    (t' ≡ t)
      × (vault_key_of instruction ≡ key)
      × (call_of instruction ≡ some call)
      × IsSigned instruction
    ⊎ IsSent t instructions key (t', call)

-- The same for a list of transactions.
abbrev pub IsSubmitted : List (Transaction × List Instruction) → Bytes → Transaction × Call → Type 0
IsSubmitted [] key sent = ⊥
IsSubmitted ((t, instructions) ∷ transactions) key sent =
    IsSent t instructions key sent ⊎ IsSubmitted transactions key sent

module _ (program : Program) (key : Bytes) where
  -- The vault is still there, and has become what the calls make of it.
  abbrev pub Evolves : (Transaction × Call → Type 0) → Vault → Ledger → Type 0
  Evolves Allowed vault after =
      (vault' : Vault) × (account_at after key ≡ some vault')
      × Follows (deployment_of program key) Allowed vault vault'

  pub account_at-write :
      (ledger : Ledger) (written : Bytes) (vault : Vault)
      → ((written ≡ key) × (account_at (write_account ledger written vault) key ≡ some vault))
        ⊎ ((written ≢ key)
            × (account_at (write_account ledger written vault) key ≡ account_at ledger key))
  unfolding account_at write_account
  account_at-write ledger written vault = elim (Bool-cases (bytes_eq written key)) [
    | inl same ↦ inl ((bytes_eq_iff _ _).0 same, rw same refl)
    | inr other ↦ inr (λ e. cc ((bytes_eq_iff written key).1 e), rw other refl)
  ]

  run_instruction-Evolves :
      (t : Transaction) (instruction : Instruction) (ledger : Ledger) {after : Ledger}
      {effect : Effect} {vault : Vault}
      → run_instruction program t instruction ledger ≡ ok (after, effect)
      → account_at ledger key ≡ some vault
      → Evolves (IsSent t (instruction ∷ []) key) vault after
  run_instruction-Evolves t instruction ledger {after} {effect} {vault} ran held =
      let (signed, did) = run_instruction_granted program t ledger instruction ran in
      elim did [
        | created accounts vault_id fresh named vacant _ done ↦
            elim (account_at-write ledger accounts.vault.key fresh) [
              | inl (e, _) ↦ cc (e, vacant, held)
              | inr (_, kept) ↦
                  (vault, ap (λ l. account_at l key) done ∙ kept ∙ held, Follows-nothing _ vault)
            ]
        | called call before vault' named there ran' done ↦
            elim (account_at-write ledger (vault_key_of instruction) vault') [
              | inl (e, now) ↦ (
                vault',
                done key ∙ now,
                (
                  (t, call) ∷ [],
                  (inl (refl, e, named, signed), tt),
                  called_once _ t call vault (
                      subst₂
                        (λ k v. run_call (deployment_of program k) t call v ≡ ok (vault', effect)) e
                        (some_inj.0 (sym there ∙ ap (account_at ledger) e ∙ held)) ran'),
                ),
              )
              | inr (_, kept) ↦ (vault, done key ∙ kept ∙ held, Follows-nothing _ vault)
            ]
      ]

  Evolves-append :
      {Fewer Later More : Transaction × Call → Type 0} (vault : Vault) (middle : Ledger)
      (after : Ledger)
      → ((sent : Transaction × Call) → Fewer sent → More sent)
      → ((sent : Transaction × Call) → Later sent → More sent)
      → Evolves Fewer vault middle
      → ((between : Vault) → account_at middle key ≡ some between → Evolves Later between after)
      → Evolves More vault after
  Evolves-append vault middle after weaken weaken' (between, held, first) rest =
      let (vault', held', second) = rest between held in
      (vault', held', Follows-append _ vault weaken weaken' first second)

  run_instructions-Evolves :
      (t : Transaction) (instructions : List Instruction) (ledger : Ledger) {after : Ledger}
      {vault : Vault}
      → run_instructions program t instructions ledger ≡ ok after
      → account_at ledger key ≡ some vault
      → Evolves (IsSent t instructions key) vault after
  unfolding run_instructions
  run_instructions-Evolves t [] ledger {vault} ran held =
      (vault, ap (λ l. account_at l key) (sym (ok_injective ran)) ∙ held, Follows-nothing _ vault)
  run_instructions-Evolves t (instruction ∷ instructions) ledger {after} {vault} ran held =
      let ((middle, effect), first, rest) =
        >>=-eq-ok (run_instruction program t instruction ledger) _ ran in
      Evolves-append vault middle after
        (λ (t', call) sent. elim sent [ inl here ↦ inl here | inr none ↦ absurd none ])
        (λ sent later. inr later) (run_instruction-Evolves t instruction ledger first held)
        (λ between there. run_instructions-Evolves t instructions middle rest there)

  -- A transaction that fails leaves the ledger as it was.
  ledger_after-Evolves :
      (Allowed : Transaction × Call → Type 0) (ledger : Ledger) (vault : Vault)
      (outcome : Result Error Ledger)
      → account_at ledger key ≡ some vault
      → ((after : Ledger) → outcome ≡ ok after → Evolves Allowed vault after)
      → Evolves Allowed vault (ledger_after outcome ledger)
  ledger_after-Evolves Allowed ledger vault (ok after) held succeeded = succeeded after refl
  ledger_after-Evolves Allowed ledger vault (err error) held succeeded =
      (vault, held, Follows-nothing _ vault)

  -- Over a list of transactions on the whole ledger, a vault that is in it stays in it, and becomes
  -- what a sequence of calls on that vault alone makes of it. Each of those calls is made by an
  -- instruction of the transactions that lists the vault, at its transaction, and is signed by whom
  -- the instruction acts for.
  pub run_transactions-Evolves :
      (transactions : List (Transaction × List Instruction)) (ledger : Ledger) {vault : Vault}
      → account_at ledger key ≡ some vault
      → Evolves (IsSubmitted transactions key) vault (run_transactions program transactions ledger)
  unfolding run_transactions
  run_transactions-Evolves [] ledger {vault} held = (vault, held, Follows-nothing _ vault)
  run_transactions-Evolves ((t, instructions) ∷ transactions) ledger {vault} held =
      let outcome = run_instructions program t instructions ledger in
      Evolves-append vault (ledger_after outcome ledger) _ (λ sent this. inl this)
        (λ sent later. inr later)
        (ledger_after-Evolves (IsSent t instructions key) ledger vault outcome held
          (λ after ran. run_instructions-Evolves t instructions ledger ran held))
        (λ between there. run_transactions-Evolves transactions (ledger_after outcome ledger) there)
