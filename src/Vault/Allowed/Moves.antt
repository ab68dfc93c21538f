-- ===== src/Vault/Allowed/Moves.antt =====
-- `apply` as a move of the veto machine at the clock's time.
use recovery_guardian_contra.Prelude.Results.{map_err, IsOk-require, map_err-ok, IsOk->>=, IsOk, ok}
use recovery_guardian_contra.Vault.Errors.{map_veto_error}
use recovery_guardian_contra.Vault.Granted.{apply_granted}
use recovery_guardian_contra.Vault.Handlers.{unix_timestamp, projected, apply}
use recovery_guardian_contra.Prelude.{refl, ap, not, ◌↔◌, false, arith, ◌≢◌, ◌≡◌}
use recovery_guardian_contra.Account.{attempt_from_veto, attempt_to_veto, config_to_veto, Vault}
use recovery_guardian_contra.Prelude.Int.{ℤ}
use recovery_guardian_contra.Veto.{State, Attempt, state_eq, Config, project}
use recovery_guardian_contra.Vault.Context.{Transaction}
use recovery_guardian_contra.Veto.Transitions.{Move, run_move, run_move_iff, MayMove}

-- The clock can be read, and what it reads has the property.
abbrev pub At : Transaction → (ℤ → Type 0) → Type 0
At t P = (now : ℤ) × (t.clock ≡ ok now) × P now

-- A move is open to the vault's attempt, as the clock has left it.
abbrev pub CanMove : Move → Transaction → Vault → Type 0
CanMove move t vault = At t (λ now. MayMove move (config_to_veto vault.veto) (projected vault now))

-- Where there is no attempt, projection finds none.
project_none :
    (config : Config) (attempt : Attempt) (now : ℤ)
    → attempt.state ≡ State.none
    → (project config attempt now).state ≡ State.none
unfolding project
project_none config attempt now h = ground arith

MayMove-begun :
    (move : Move) (config : Config) (attempt : Attempt)
    → MayMove move config attempt
    → attempt.state ≢ State.none
MayMove-begun Move.pausing config attempt may none = cc
MayMove-begun Move.resuming config attempt may none = cc
MayMove-begun Move.aborting config attempt may none = may.0 none
MayMove-begun Move.executing config attempt may none = cc

stored_begun : (state : State) → state ≢ State.none → state_eq state State.none ≡ false
unfolding state_eq
stored_begun state h = ground arith

module _ (move : Move) (t : Transaction) (vault : Vault) where
  apply-CanMove : {after : Vault} → apply t vault (run_move move) ≡ ok after → CanMove move t vault
  apply-CanMove h =
      let (now, reached, clocked, _, moved, _) = apply_granted t vault (run_move move) h in
      (now, clocked, (run_move_iff move _ _ now).0 (reached, moved))

  CanMove-apply : CanMove move t vault → IsOk (apply t vault (run_move move))
  unfolding apply
  CanMove-apply (now, clocked, may) =
      let config = config_to_veto vault.veto in
      let attempt = attempt_to_veto vault.attempt in
      let (reached, moved) = (run_move_iff move config attempt now).1 may in
      let begun : state_eq attempt.state State.none ≡ false = stored_begun attempt.state (λ none.
        MayMove-begun move config (project config attempt now) may
          (project_none config attempt now none)) in
      IsOk->>= (unix_timestamp t) _ (map_err-ok _ _ clocked) (
        IsOk-require (not (state_eq attempt.state State.none)) _ _ (ap not begun) (
          IsOk->>= (map_err map_veto_error (run_move move config attempt now)) _
            (map_err-ok _ _ moved) (record vault { attempt = attempt_from_veto reached }, refl)))

  -- `apply` succeeds exactly when the move is open.
  pub apply_iff : IsOk (apply t vault (run_move move)) ↔ CanMove move t vault
  apply_iff = ((λ h. apply-CanMove h.1), CanMove-apply)
