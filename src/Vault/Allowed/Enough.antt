-- ===== src/Vault/Allowed/Enough.antt =====
-- What each instruction asks for, and that it succeeds where it is given that.
use recovery_guardian_contra.Vault.Allowed.Signers.{check_signers_iff}
use recovery_guardian_contra.Prelude.Int.{◌<ℤ◌}
use recovery_guardian_contra.Vault.Errors.{common, map_veto_error}
use recovery_guardian_contra.Validation.Independence.{validate_iff, IsIndependent}
use recovery_guardian_contra.Prelude.Results.{map_err-ok, IsOk->>=, IsOk-require, ok, IsOk}
use recovery_guardian_contra.Verify.{runtime, verify_detached}
use recovery_guardian_contra.Vault.Handlers.{
  execute_transfer, execute_recovery, abort_recovery, resume_recovery, pause_recovery, sol_seed,
  resume_of, intent_of, registration_of, unix_timestamp, projected, is_idle, default_key,
  initiate_recovery, register,
}
use recovery_guardian_contra.Vault.Steps.{
  run_call, transferring, executing, aborting, resuming, pausing, initiating, registering, Call,
}
use recovery_guardian_contra.Vault.Context.{Intent, Transaction, Deployment}
use recovery_guardian_contra.Prelude.{
  refl, map, AllDistinct, length, ◌≤◌, [], ◌∷◌, lt→ltb, ==_iff, contains_iff, bytes_eq_iff, arith,
  List, contains, true, All, ℕ, ◌&&◌, ◌≡◌, bytes_eq, Has, not, ◌≢◌, Bytes,
}
use recovery_guardian_contra.Account.{config_to_veto, Vault, VetoConfigAccount}
use recovery_guardian_contra.Veto.Transitions.{run_move, Move}
use recovery_guardian_contra.Vault.Allowed.Moves.{At, CanMove, apply_iff}

-- A key that holds no role of the configuration.
abbrev pub IsRoleless : VetoConfigAccount → Bytes → Type 0
IsRoleless veto key =
    (key ≢ veto.pause_authority) × (key ≢ veto.abort_authority) × (¬ (Has veto.resume_members key))

≢-bytes_eq : (a b : Bytes) → a ≢ b → not (bytes_eq a b) ≡ true
≢-bytes_eq a b h = ground (arith, bytes_eq_iff a b)

roleless_test :
    (key : Bytes) (veto : VetoConfigAccount)
    → IsRoleless veto key
    → (not (bytes_eq key veto.pause_authority)
        && not (bytes_eq key veto.abort_authority)
        && not (contains veto.resume_members key))
      ≡ true
roleless_test key veto h = ground (
  arith,
  bytes_eq_iff key veto.pause_authority,
  bytes_eq_iff key veto.abort_authority,
  contains_iff veto.resume_members key,
)

module _ (deployment : Deployment) (t : Transaction) (vault : Vault) where
  -- The detached signatures that an instruction of the transaction carries.
  abbrev pub Carries : ℕ → List (Bytes × Bytes) → Type 0
  Carries index expected = verify_detached t.sysvar index expected ≡ ok tt

  -- What each instruction asks for.
  abbrev pub IsAllowed : Call → Type 0
  IsAllowed (registering owner key veto nonce index) =
      (owner ≡ vault.owner)
      × (key ≢ default_key)
      × (nonce ≡ vault.config_nonce)
      × At t (λ now. is_idle (projected vault now).state ≡ true)
      × IsIndependent (config_to_veto veto)
      × IsRoleless veto key
      × Carries index ((key, registration_of deployment vault key veto nonce) ∷ [])
  IsAllowed (initiating intent index) =
      (vault.registered ≡ true)
      × (intent.new_owner ≢ default_key)
      × At t (λ now. (now <ℤ intent.expiry) × (is_idle (projected vault now).state ≡ true))
      × (intent.epoch ≡ vault.epoch)
      × (intent.nonce ≡ vault.nonce)
      × Carries index ((vault.recovery_owner, intent_of deployment intent) ∷ [])
  IsAllowed (pausing authority) =
      (vault.registered ≡ true)
      × (authority ≡ vault.veto.pause_authority)
      × CanMove Move.pausing t vault
  IsAllowed (resuming signers index) =
      (vault.registered ≡ true)
      × (vault.veto.resume_threshold ≤ length signers)
      × All (λ signer. Has vault.veto.resume_members signer) signers
      × AllDistinct signers
      × Carries index (map (λ signer. (signer, resume_of deployment vault)) signers)
      × CanMove Move.resuming t vault
  IsAllowed (aborting authority) =
      (vault.registered ≡ true)
      × (authority ≡ vault.veto.abort_authority)
      × CanMove Move.aborting t vault
  IsAllowed (executing intent) =
      (vault.registered ≡ true)
      × (intent_of deployment intent ≡ vault.intent_digest)
      × (intent.epoch ≡ vault.epoch)
      × CanMove Move.executing t vault
  IsAllowed (transferring owner vault_sol destination amount) =
      (owner ≡ vault.owner)
      × (vault_sol
          ≡ deployment.derive (sol_seed ∷ deployment.vault_key ∷ (vault.sol_bump ∷ []) ∷ []))
      × (t.invoke_transfer vault_sol destination amount ≡ ok tt)

  IsOk-register :
      (owner key : Bytes) (veto : VetoConfigAccount) (nonce index : ℕ)
      → IsAllowed (registering owner key veto nonce index)
      → IsOk (register deployment t owner key veto nonce index vault)
  unfolding register
  IsOk-register owner key veto nonce index
        (by_owner, named, counted, (now, clocked, idle), independent, roleless, carried) =
      IsOk-require _ _ _ ((bytes_eq_iff _ _).1 by_owner) (
        IsOk-require _ _ _ (≢-bytes_eq _ _ named) (
          IsOk-require _ _ _ ((==_iff _ _).1 counted) (
            IsOk->>= (unix_timestamp t) _ (map_err-ok _ _ clocked) (
              IsOk-require _ _ _ idle (
                IsOk->>= _ _ (map_err-ok map_veto_error _ ((validate_iff _).1 independent)) (
                  IsOk-require _ _ _ (roleless_test key veto roleless)
                    (IsOk->>= _ _ (map_err-ok common _ carried) (_, refl))))))))

  IsOk-initiate :
      (intent : Intent) (index : ℕ)
      → IsAllowed (initiating intent index)
      → IsOk (initiate_recovery deployment t intent index vault)
  unfolding initiate_recovery
  IsOk-initiate intent index (bound, named, (now, clocked, (fresh, idle)), epoch, nonce, carried) =
      IsOk-require _ _ _ bound (
        IsOk-require _ _ _ (≢-bytes_eq _ _ named) (
          IsOk->>= (unix_timestamp t) _ (map_err-ok _ _ clocked) (
            IsOk-require _ _ _ (lt→ltb _ _ fresh) (
              IsOk-require _ _ _ ((==_iff _ _).1 epoch) (
                IsOk-require _ _ _ ((==_iff _ _).1 nonce) (
                  IsOk-require _ _ _ idle
                    (IsOk->>= _ _ (map_err-ok common _ carried) (_, refl))))))))

  IsOk-pause :
      (authority : Bytes)
      → IsAllowed (pausing authority)
      → IsOk (pause_recovery deployment t authority vault)
  unfolding pause_recovery run_move
  IsOk-pause authority (bound, held, may) =
      let (_, applied) = (apply_iff Move.pausing t vault).1 may in
      IsOk-require _ _ _ bound
        (IsOk-require _ _ _ ((bytes_eq_iff _ _).1 held) (IsOk->>= _ _ applied (_, refl)))

  IsOk-resume :
      (signers : List Bytes) (index : ℕ)
      → IsAllowed (resuming signers index)
      → IsOk (resume_recovery deployment t signers index vault)
  unfolding resume_recovery run_move config_to_veto
  IsOk-resume signers index (bound, enough, members, distinct, carried, may) =
      let (_, applied) = (apply_iff Move.resuming t vault).1 may in
      IsOk-require _ _ _ bound (
        IsOk-require _ _ _ (ground arith) (
          IsOk->>= _ _
            ((check_signers_iff (config_to_veto vault.veto) signers).1 (members, distinct))
            (IsOk->>= _ _ (map_err-ok common _ carried) (IsOk->>= _ _ applied (_, refl)))))

  IsOk-abort :
      (authority : Bytes)
      → IsAllowed (aborting authority)
      → IsOk (abort_recovery deployment t authority vault)
  unfolding abort_recovery run_move
  IsOk-abort authority (bound, held, may) =
      let (_, applied) = (apply_iff Move.aborting t vault).1 may in
      IsOk-require _ _ _ bound
        (IsOk-require _ _ _ ((bytes_eq_iff _ _).1 held) (IsOk->>= _ _ applied (_, refl)))

  IsOk-execute :
      (intent : Intent)
      → IsAllowed (executing intent)
      → IsOk (execute_recovery deployment t intent vault)
  unfolding execute_recovery run_move
  IsOk-execute intent (bound, known, epoch, may) =
      let (_, applied) = (apply_iff Move.executing t vault).1 may in
      IsOk-require _ _ _ bound (
        IsOk-require _ _ _ ((bytes_eq_iff _ _).1 known)
          (IsOk-require _ _ _ ((==_iff _ _).1 epoch) (IsOk->>= _ _ applied (_, refl))))

  IsOk-transfer :
      (owner vault_sol destination : Bytes) (amount : ℕ)
      → IsAllowed (transferring owner vault_sol destination amount)
      → IsOk (execute_transfer deployment t owner vault_sol destination amount vault)
  unfolding execute_transfer
  IsOk-transfer owner vault_sol destination amount (held, derived, paid) =
      IsOk-require _ _ _ ((bytes_eq_iff _ _).1 derived) (
        IsOk-require _ _ _ ((bytes_eq_iff _ _).1 held)
          (IsOk->>= _ _ (map_err-ok (λ code. common (runtime code)) _ paid) (_, refl)))

  pub IsAllowed-IsOk : (call : Call) → IsAllowed call → IsOk (run_call deployment t call vault)
  unfolding run_call
  IsAllowed-IsOk (registering owner key veto nonce index) = IsOk-register owner key veto nonce index
  IsAllowed-IsOk (initiating intent index) = IsOk-initiate intent index
  IsAllowed-IsOk (pausing authority) = IsOk-pause authority
  IsAllowed-IsOk (resuming signers index) = IsOk-resume signers index
  IsAllowed-IsOk (aborting authority) = IsOk-abort authority
  IsAllowed-IsOk (executing intent) = IsOk-execute intent
  IsAllowed-IsOk (transferring owner vault_sol destination amount) =
      IsOk-transfer owner vault_sol destination amount
