-- ===== src/Vault/Granted/Applied.antt =====
-- What holds when a transition has been applied to the account.
use recovery_guardian_contra.Vault.Errors.{map_veto_error}
use recovery_guardian_contra.Prelude.Int.{ℤ}
use recovery_guardian_contra.Prelude.Results.{
  ok_injective, map_err-eq-ok, map_err, require-eq-ok, >>=-eq-ok, ok,
}
use recovery_guardian_contra.Prelude.{not, sym, ◌≢◌, ◌≡◌}
use recovery_guardian_contra.Veto.{State, state_eq, Attempt, Transition}
use recovery_guardian_contra.Account.{attempt_from_veto, attempt_to_veto, config_to_veto, Vault}
use recovery_guardian_contra.Vault.Context.{Transaction}
use recovery_guardian_contra.Vault.Handlers.{unix_timestamp, apply}

-- `apply` changes the attempt and nothing else, as the transition does at the clock's time.
pub apply_granted :
    (t : Transaction) (vault : Vault) (transition : Transition) {after : Vault}
    → apply t vault transition ≡ ok after
    → (now : ℤ) × (reached : Attempt) × (t.clock ≡ ok now)
      × ((attempt_to_veto vault.attempt).state ≢ State.none)
      × (transition (config_to_veto vault.veto) (attempt_to_veto vault.attempt) now ≡ ok reached)
      × (after ≡ record vault { attempt = attempt_from_veto reached })
unfolding apply state_eq
apply_granted t vault transition h =
    let (now, clocked, rest) = >>=-eq-ok (unix_timestamp t) _ h in
    let (there, rest') =
      require-eq-ok (not (state_eq (attempt_to_veto vault.attempt).state State.none)) _ _ rest in
    let (reached, moved, done) =
      >>=-eq-ok
        (map_err map_veto_error
          (transition (config_to_veto vault.veto) (attempt_to_veto vault.attempt) now))
        _ rest' in
    (
      now,
      reached,
      map_err-eq-ok _ _ clocked,
      (λ absent. cc (rw absent at there)),
      map_err-eq-ok _ _ moved,
      sym (ok_injective done),
    )
