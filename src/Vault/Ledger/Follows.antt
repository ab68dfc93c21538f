-- ===== src/Vault/Ledger/Follows.antt =====
-- Sequences of calls of a kind from one vault to another.
use recovery_guardian_contra.Prelude.Results.{ok}
use recovery_guardian_contra.Account.{Vault}
use recovery_guardian_contra.Prelude.{sym, ap, refl, ◌∙◌, ◌++◌, ◌≡◌, [], ◌∷◌, All, List}
use recovery_guardian_contra.Vault.Context.{Effect, Deployment, Transaction}
use recovery_guardian_contra.Vault.Steps.{Call, run_call, run_calls, step}

-- The second vault is what the first becomes by calls of a kind.
abbrev pub Follows : Deployment → (Transaction × Call → Type 0) → Vault → Vault → Type 0
Follows deployment Allowed vault after =
    (calls : List (Transaction × Call)) × All Allowed calls
    × (after ≡ run_calls deployment calls vault)

All-weaken :
    {Fewer More : Transaction × Call → Type 0}
    → ((sent : Transaction × Call) → Fewer sent → More sent)
    → (calls : List (Transaction × Call)) → All Fewer calls
    → All More calls
All-weaken weaken [] held = tt
All-weaken weaken (sent ∷ calls) held = (weaken sent held.0, All-weaken weaken calls held.1)

All-append :
    (Allowed : Transaction × Call → Type 0) (calls later : List (Transaction × Call))
    → All Allowed calls
    → All Allowed later
    → All Allowed (calls ++ later)
All-append Allowed [] later held more = more
All-append Allowed (sent ∷ calls) later held more =
    (held.0, All-append Allowed calls later held.1 more)

module _ (deployment : Deployment) where
  run_calls-append :
      (calls later : List (Transaction × Call)) (vault : Vault)
      → run_calls deployment (calls ++ later) vault
        ≡ run_calls deployment later (run_calls deployment calls vault)
  unfolding run_calls
  run_calls-append [] later vault = refl
  run_calls-append ((t, call) ∷ calls) later vault =
      run_calls-append calls later (step deployment t call vault)

  pub Follows-nothing :
      {Allowed : Transaction × Call → Type 0} (vault : Vault)
      → Follows deployment Allowed vault vault
  unfolding run_calls
  Follows-nothing vault = ([], tt, refl)

  pub Follows-append :
      {Fewer Later More : Transaction × Call → Type 0} (vault : Vault) {between after : Vault}
      → ((sent : Transaction × Call) → Fewer sent → More sent)
      → ((sent : Transaction × Call) → Later sent → More sent)
      → Follows deployment Fewer vault between
      → Follows deployment Later between after
      → Follows deployment More vault after
  Follows-append vault weaken weaken' (calls, held, e) (later, more, f) = (
    calls ++ later,
    All-append _ calls later (All-weaken weaken calls held) (All-weaken weaken' later more),
    f ∙ ap (run_calls deployment later) e ∙ sym (run_calls-append calls later vault),
  )

  pub called_once :
      (t : Transaction) (call : Call) (vault : Vault) {after : Vault} {effect : Effect}
      → run_call deployment t call vault ≡ ok (after, effect)
      → after ≡ run_calls deployment ((t, call) ∷ []) vault
  unfolding run_calls step
  called_once t call vault ran = rw ran refl
