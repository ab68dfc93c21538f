-- ===== src/Vault/Allowed/Readings.antt =====
-- What a reader of `projected_state` learns about the calls to come.
use recovery_guardian_contra.Vault.Allowed.Exact.{run_call_iff}
use recovery_guardian_contra.Vault.Steps.{executing, run_call}
use recovery_guardian_contra.Vault.Allowed.Moves.{At}
use recovery_guardian_contra.Prelude.Results.{ok_injective, map_err-eq-ok, >>=-eq-ok, IsOk, ok}
use recovery_guardian_contra.Vault.Handlers.{unix_timestamp, projected, intent_of, projected_state}
use recovery_guardian_contra.Prelude.{ap, ◌↔◌, true, arith, ◌≡◌}
use recovery_guardian_contra.Account.{Vault}
use recovery_guardian_contra.Vault.Context.{Intent, Deployment, Transaction}
use recovery_guardian_contra.Veto.{State, ordinal}

ordinal_injective : (a b : State) → ordinal a ≡ ordinal b → a ≡ b
unfolding ordinal
ordinal_injective a b h = ground arith

module _ (t : Transaction) (vault : Vault) where
  reads_state :
      (state : State)
      → (projected_state t vault ≡ ok (ordinal state))
        ↔ At t (λ now. (projected vault now).state ≡ state)
  unfolding projected_state
  reads_state state = (
    λ h.
        let (now, clocked, read) = >>=-eq-ok (unix_timestamp t) _ h in
        (now, map_err-eq-ok _ _ clocked, ordinal_injective _ _ (ok_injective read)),
    λ (now, clocked, same). rw clocked (ap (λ s. ok (ordinal s)) same),
  )

-- For a registered vault, its committed intent and its epoch: the reading `projected_state` is that
-- of `Executable` exactly when `execute_recovery` succeeds in the same transaction.
pub projected_state_tells :
    (deployment : Deployment) (t : Transaction) (vault : Vault) (intent : Intent)
    → vault.registered ≡ true
    → intent_of deployment intent ≡ vault.intent_digest
    → intent.epoch ≡ vault.epoch
    → (projected_state t vault ≡ ok (ordinal State.executable))
      ↔ IsOk (run_call deployment t (executing intent) vault)
projected_state_tells deployment t vault intent bound known epoch = (
  λ read.
      (run_call_iff deployment t vault (executing intent)).1
        (bound, known, epoch, (reads_state t vault State.executable).0 read),
  λ runs.
      let (_, _, _, may) = (run_call_iff deployment t vault (executing intent)).0 runs in
      (reads_state t vault State.executable).1 may,
)
