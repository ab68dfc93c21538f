-- ===== src/Evm/Eip7702RecoveryAccount/Ownership.antt =====
-- How the owner of a delegated account changes.
use recovery_guardian_contra.Prelude.{[], ℕ, List, Bytes, ◌≡◌, ◌⊎◌, inl, inr, arith, refl, ◌∙◌}
use recovery_guardian_contra.Prelude.Results.{ok}
use recovery_guardian_contra.Evm.DelegatedTypedData.{Intent, RegisterMessage, BatchCall, Account}
use recovery_guardian_contra.Evm.Eip7702RecoveryAccount.{
  Layout, Effect, Environment, register, initiate_recovery, pause, resume, abort, execute_recovery,
  open_batch,
}
use recovery_guardian_contra.Evm.Eip7702RecoveryAccount.Calls.{
  Call, registering, initiating, pausing, aborting, resuming, recovering, batching, Step, Reach,
  Reach-Related,
}

-- The owner is the same, or is the one that an executed intent names.
abbrev pub OwnerFollows : (Environment → Call → Type 0) → Layout → Layout → Type 0
OwnerFollows Made before after =
    (after.owner ≡ before.owner)
    ⊎ ((environment : Environment) × (intent : Intent) × Made environment (recovering intent)
        × (after.owner ≡ intent.new_owner))

module _ (account : Account) (environment : Environment) (before after : Layout)
    (effects : List Effect) where
  register_keeps :
      (message : RegisterMessage) (first second : Bytes)
      → register account environment message first second before ≡ ok (after, effects)
      → after.owner ≡ before.owner
  unfolding register
  register_keeps message first second h = ground arith

  initiate_keeps :
      (intent : Intent) (signature : Bytes)
      → initiate_recovery account environment intent signature before ≡ ok (after, effects)
      → after.owner ≡ before.owner
  unfolding initiate_recovery
  initiate_keeps intent signature h = ground arith

  pause_keeps : pause account environment before ≡ ok (after, effects) → after.owner ≡ before.owner
  unfolding pause
  pause_keeps h = ground arith

  resume_keeps :
      (signers signatures : List Bytes)
      → resume account environment signers signatures before ≡ ok (after, effects)
      → after.owner ≡ before.owner
  unfolding resume
  resume_keeps signers signatures h = ground arith

  abort_keeps : abort account environment before ≡ ok (after, effects) → after.owner ≡ before.owner
  unfolding abort
  abort_keeps h = ground arith

  execute_recovery_rotates :
      (intent : Intent)
      → execute_recovery account environment intent before ≡ ok (after, effects)
      → after.owner ≡ intent.new_owner
  unfolding execute_recovery
  execute_recovery_rotates intent h = ground arith

  batch_keeps :
      (calls : List BatchCall) (expiry : ℕ) (signature : Bytes)
      → open_batch account environment calls expiry signature before ≡ ok after
      → after.owner ≡ before.owner
  unfolding open_batch
  batch_keeps calls expiry signature h = ground arith

module _ (account : Account) (Made : Environment → Call → Type 0) where
  Step-OwnerFollows :
      (environment : Environment) (call : Call) (before after : Layout)
      → Made environment call
      → Step account environment call before after
      → OwnerFollows Made before after
  Step-OwnerFollows environment (batching calls expiry signature) before after made h =
      inl (batch_keeps account environment before after [] calls expiry signature h)
  Step-OwnerFollows environment (registering message first second) before after made (effects, h) =
      inl (register_keeps account environment before after effects message first second h)
  Step-OwnerFollows environment (initiating intent signature) before after made (effects, h) =
      inl (initiate_keeps account environment before after effects intent signature h)
  Step-OwnerFollows environment pausing before after made (effects, h) =
      inl (pause_keeps account environment before after effects h)
  Step-OwnerFollows environment (resuming signers signatures) before after made (effects, h) =
      inl (resume_keeps account environment before after effects signers signatures h)
  Step-OwnerFollows environment aborting before after made (effects, h) =
      inl (abort_keeps account environment before after effects h)
  Step-OwnerFollows environment (recovering intent) before after made (effects, h) = inr (
    environment,
    intent,
    made,
    execute_recovery_rotates account environment before after effects intent h,
  )

  OwnerFollows-join :
      (a b c : Layout) → OwnerFollows Made a b → OwnerFollows Made b c → OwnerFollows Made a c
  OwnerFollows-join a b c first (inr rotated) = inr rotated
  OwnerFollows-join a b c (inl same) (inl same') = inl (same' ∙ same)
  OwnerFollows-join a b c (inr (environment, intent, made, named)) (inl same) =
      inr (environment, intent, made, same ∙ named)

  -- Along any calls of which `Made` holds, with the calls back that a batch causes, the owner of a
  -- delegated account stays as it is, or is in the end the new owner that the intent of one of the
  -- executed recoveries names.
  pub Reach-OwnerFollows :
      {before after : Layout} → Reach account Made before after → OwnerFollows Made before after
  Reach-OwnerFollows reached =
      Reach-Related account Made (OwnerFollows Made) (λ layout. inl refl) OwnerFollows-join
        Step-OwnerFollows reached
