-- ===== src/Evm/AccountTests.antt =====
-- The delegated account at concrete inputs.
use recovery_guardian_contra.Prelude.{
  ℕ, [], ◌∷◌, List, Bytes, false, ◌≡◌, ◌≤◌, ◌+◌, arith, refl, ◌⊎◌, inl, inr, some, ap, bytes_eq,
  contains,
}
use mathlib.Core.Path.{subst}
use recovery_guardian_contra.Encoding.{concat}
use recovery_guardian_contra.Prelude.Results.{Result, ok, err, ok_injective}
use recovery_guardian_contra.Samples.{hasher}
use recovery_guardian_contra.Evm.Samples.{address, config, guardian}
use recovery_guardian_contra.Evm.GradualVeto
use recovery_guardian_contra.Evm.GradualVeto.{Address}
use recovery_guardian_contra.Evm.DelegatedTypedData.{
  Intent, RegisterMessage, BatchCall, Account, hash_intent,
}
use recovery_guardian_contra.Evm.Eip7702RecoveryAccount.{
  Layout, Effect, Environment, Outcome, register, initiate_recovery, execute_recovery, execute,
  bad_signature,
}
use recovery_guardian_contra.Evm.Eip7702RecoveryAccount.Calls.{
  Call, registering, initiating, recovering, batching, run_call, Reach, here, next,
}
use recovery_guardian_contra.Evm.Eip7702RecoveryAccount.Opened.{fresh}
use recovery_guardian_contra.Evm.Eip7702RecoveryAccount.Timelock.{rotation_needs_key_and_time}
use recovery_guardian_contra.Evm.Eip7702RecoveryAccount.Ownership.{OwnerFollows, Reach-OwnerFollows}

-- A signature is the address that signed.
abbrev account : Account
account = record {
  address = address 6;
  keccak = hasher;
  hash_typed_data = λ digest. digest;
  recover = λ digest signature. some signature;
  try_recover = λ digest signature. signature;
}

-- What a batch calls answers nothing, and calls nothing back.
abbrev answer : Address → ℕ → Bytes → Layout → Result Bytes (Layout × Bytes)
answer target value payload layout = ok (layout, [])

abbrev block : ℕ → Environment
block timestamp = record {
  sender = address 8;
  timestamp = timestamp;
  is_valid_signature = λ _ _ _. false;
  call_target = answer;
}

abbrev message : RegisterMessage
message = record { recovery_owner = guardian; veto = config; nonce = 0 }

abbrev intent : Intent
intent = record { epoch = 0; nonce = 0; new_owner = address 7; expiry = 5000 }

abbrev batch : List BatchCall
batch = record { target = address 12; value = 3; payload = 1 ∷ [] } ∷ []

abbrev left_by : Outcome → Layout × List Effect
left_by (ok result) = result
left_by (err error) = (fresh, [])

abbrev registration : Outcome
registration = run_call account (block 900) (registering message guardian (address 6)) fresh

abbrev bound : Layout
bound = (left_by registration).0

abbrev opening : Outcome
opening = run_call account (block 1000) (initiating intent guardian) bound

abbrev opened : Layout
opened = (left_by opening).0

abbrev rotation : Outcome
rotation = run_call account (block 1100) (recovering intent) opened

abbrev rotated : Layout
rotated = (left_by rotation).0

registers : registration ≡ ok (left_by registration)
unfolding run_call register GradualVeto.validate GradualVeto.validate_recovery_owner bytes_eq
    contains GradualVeto.state_eq
registers = refl

opens : opening ≡ ok (left_by opening)
unfolding run_call register GradualVeto.validate GradualVeto.validate_recovery_owner bytes_eq
    contains GradualVeto.state_eq initiate_recovery
opens = refl

rotates : rotation ≡ ok (left_by rotation)
unfolding run_call register GradualVeto.validate GradualVeto.validate_recovery_owner bytes_eq
    contains GradualVeto.state_eq initiate_recovery execute_recovery GradualVeto.execute
    GradualVeto.start GradualVeto.project concat hash_intent
rotates = refl

-- After a rotation, the old key drives no batch and the new owner does.
old_owner_refused :
    run_call account
      (block 1200)
      (batching batch 5000 (address 6))
      (record fresh { owner = address 7 })
    ≡ err bad_signature
unfolding run_call execute bytes_eq
old_owner_refused = refl

-- The calls of the run, none later than the rotation.
abbrev Early : Environment → Call → Type 0
Early environment call =
    (environment.timestamp ≤ 1100)
    × ((call ≡ registering message guardian (address 6))
        ⊎ (call ≡ initiating intent guardian)
        ⊎ (call ≡ recovering intent))

answers_nothing :
    (entered left : Layout) (answered : Bytes)
    → ◌≡◌ {A = Result Bytes (Layout × Bytes)} (ok (entered, [])) (ok (left, answered))
    → Reach account Early entered left
answers_nothing entered left answered e =
    subst (Reach account Early entered) (ap (λ (p : Layout × Bytes). p.0) (ok_injective e))
      (here entered)

to_bound : Reach account Early fresh bound
to_bound =
    next (block 900) (registering message guardian (address 6)) (here fresh) (omega arith, inl refl)
      (λ _ _ _. answers_nothing) registers

to_opened : Reach account Early fresh opened
to_opened =
    next (block 1000) (initiating intent guardian) to_bound (omega arith, inr (inl refl))
      (λ _ _ _. answers_nothing) opens

to_rotated : Reach account Early fresh rotated
to_rotated =
    next (block 1100) (recovering intent) to_opened (omega arith, inr (inr refl))
      (λ _ _ _. answers_nothing) rotates

rotation_needs_key_and_time_example :
    (first : Environment) × (opened_intent : Intent) × (signature : Bytes) × Early first
      (initiating opened_intent signature)
    × (hash_intent account intent ≡ hash_intent account opened_intent)
    × (some signature ≡ some opened.recovery_owner)
    × (first.timestamp + opened.veto.timelock_seconds ≤ 1100)
rotation_needs_key_and_time_example =
    rotation_needs_key_and_time account Early (block 1100) intent opened (left_by rotation).0
      (left_by rotation).1 to_opened (λ environment call early. early.0) (omega arith) rotates

Reach-OwnerFollows_example : OwnerFollows Early fresh rotated
Reach-OwnerFollows_example = Reach-OwnerFollows account Early to_rotated
