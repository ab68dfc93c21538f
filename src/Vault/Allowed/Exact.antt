-- ===== src/Vault/Allowed/Exact.antt =====
-- What an instruction that succeeds was given, and the equivalence.
use recovery_guardian_contra.Vault.Allowed.Signers.{check_signers_iff}
use recovery_guardian_contra.Vault.Allowed.Moves.{apply_iff}
use recovery_guardian_contra.Validation.Independence.{validate_iff}
use recovery_guardian_contra.Vault.Granted.{
  transfer_paid, transfer_granted, execute_granted, abort_granted, resume_granted, pause_granted,
  initiate_named, initiate_granted, register_granted,
}
use recovery_guardian_contra.Prelude.{◌≡◌, ◌↔◌}
use recovery_guardian_contra.Veto.Transitions.{run_move}
use recovery_guardian_contra.Prelude.Results.{ok, IsOk}
use recovery_guardian_contra.Vault.Steps.{
  transferring, executing, aborting, resuming, pausing, initiating, registering, run_call, Call,
}
use recovery_guardian_contra.Account.{config_to_veto, Vault}
use recovery_guardian_contra.Vault.Context.{Effect, Transaction, Deployment}
use recovery_guardian_contra.Veto.Transitions
use recovery_guardian_contra.Vault.Allowed.Enough.{IsAllowed, IsAllowed-IsOk}

module _ (deployment : Deployment) (t : Transaction) (vault : Vault) {after : Vault}
    {effect : Effect} where
  granted-IsAllowed :
      (call : Call)
      → run_call deployment t call vault ≡ ok (after, effect)
      → IsAllowed deployment t vault call
  unfolding run_call run_move config_to_veto
  granted-IsAllowed (registering owner key veto nonce index) h =
      let (now, clocked, by_owner, named, counted, idle, valid, a, b, c, carried, _) =
        register_granted deployment t vault owner key veto nonce index h in
      (by_owner, named, counted, (now, clocked, idle), (validate_iff _).0 valid, (a, b, c), carried)
  granted-IsAllowed (initiating intent index) h =
      let (now, clocked, bound, fresh, epoch, nonce, idle, carried, _) =
        initiate_granted deployment t vault intent index h in
      (
        bound,
        initiate_named deployment t vault intent index h,
        (now, clocked, (fresh, idle)),
        epoch,
        nonce,
        carried,
      )
  granted-IsAllowed (pausing authority) h =
      let (reached, bound, held, applied, _) = pause_granted deployment t vault authority h in
      (bound, held, (apply_iff Transitions.pausing t vault).0 (reached, applied))
  granted-IsAllowed (resuming signers index) h =
      let (bound, enough, checked, carried, applied) =
        resume_granted deployment t vault signers index h in
      let (members, distinct) = (check_signers_iff (config_to_veto vault.veto) signers).0 checked in
      (
        bound,
        enough,
        members,
        distinct,
        carried,
        (apply_iff Transitions.resuming t vault).0 (after, applied),
      )
  granted-IsAllowed (aborting authority) h =
      let (reached, bound, held, applied, _) = abort_granted deployment t vault authority h in
      (bound, held, (apply_iff Transitions.aborting t vault).0 (reached, applied))
  granted-IsAllowed (executing intent) h =
      let (reached, bound, known, epoch, applied, _) =
        execute_granted deployment t vault intent h in
      (bound, known, epoch, (apply_iff Transitions.executing t vault).0 (reached, applied))
  granted-IsAllowed (transferring owner vault_sol destination amount) h =
      let (held, _, _) = transfer_granted deployment t vault owner vault_sol destination amount h in
      let (derived, paid) = transfer_paid deployment t vault owner vault_sol destination amount h in
      (held, derived, paid)

-- An instruction on an existing vault succeeds exactly when the account, the clock, the arguments
-- and, where it reads one, the signature instruction allow it: the caller holds the role, the
-- digests and counters match, and the projected attempt admits the move.
pub run_call_iff :
    (deployment : Deployment) (t : Transaction) (vault : Vault) (call : Call)
    → IsOk (run_call deployment t call vault) ↔ IsAllowed deployment t vault call
run_call_iff deployment t vault call = (
  λ h. granted-IsAllowed deployment t vault {after = h.0.0} {effect = h.0.1} call h.1,
  IsAllowed-IsOk deployment t vault call,
)
