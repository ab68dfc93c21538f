-- ===== src/Evm/RecoveryModule/Slots.antt =====
-- What a call on one account's entries does to the storage.
use recovery_guardian_contra.Prelude.{
  some, [], ◌∷◌, some, [], ◌∷◌, List, ◌≡◌, ◌≢◌, ◌⊎◌, inl, inr, bytes_eq, bytes_eq_iff, Bool-cases,
  refl, ap, ◌∙◌, sym,
}
use recovery_guardian_contra.Prelude.Results.{
  ok_or, ok_or-eq-ok, ok_or, ok_or-eq-ok, ok, >>=-eq-ok, ok_injective,
}
use recovery_guardian_contra.Evm.GradualVeto.{Address}
use recovery_guardian_contra.Evm.TypedData.{Intent, Deployment}
use recovery_guardian_contra.Evm.RecoveryModule.{
  Environment, close_recovery, execute_recovery, validator_installed, recovery_executed,
  call_failed, Slot, Storage, SlotOutcome, Effect, write, on_slot,
}

pub write_self :
    (storage : Storage) (account : Address) (slot : Slot)
    → write storage account slot account ≡ slot
unfolding write
write_self storage account slot = rw ((bytes_eq_iff account account).1 refl)

pub write_other :
    (storage : Storage) (account other : Address) (slot : Slot)
    → other ≢ account
    → write storage account slot other ≡ storage other
unfolding write
write_other storage account other slot apart = elim (Bool-cases (bytes_eq other account)) [
  | inl e ↦ absurd (apart ((bytes_eq_iff other account).0 e))
  | inr e ↦ rw e
]

pub same_address : (a b : Address) → (a ≡ b) ⊎ (a ≢ b)
same_address a b = elim (Bool-cases (bytes_eq a b)) [
  | inl e ↦ inl ((bytes_eq_iff a b).0 e)
  | inr e ↦ inr (λ p. cc ((bytes_eq_iff a b).1 p))
]

pub on_slot_granted :
    (account : Address) (body : Slot → SlotOutcome) (storage : Storage) {after : Storage}
    {effects : List Effect}
    → on_slot account body storage ≡ ok (after, effects)
    → (slot : Slot) × (body (storage account) ≡ ok (slot, effects))
      × (after ≡ write storage account slot)
unfolding on_slot
on_slot_granted account body storage {after} {effects} h =
    let ((slot, effects'), ran, done) = >>=-eq-ok (body (storage account)) _ h in
    let same : ◌≡◌ {A = Storage × List Effect} (write storage account slot, effects')
        (after, effects) =
      ok_injective done in
    (slot, ran ∙ ap (λ p. ok (slot, p.1)) same, ap (λ p. p.0) (sym same))

-- What an execution emits, over the storage that the account's call has left.
abbrev pub events : Intent → Storage → List Effect
events intent after =
    validator_installed intent.account intent.new_validator intent.new_validator_init_data
    ∷ recovery_executed intent.account (after intent.account).attempt.intent_hash
        (after intent.account).config.epoch
    ∷ []

-- The parts of an execution that succeeds.
pub execute_recovery_granted :
    (deployment : Deployment) (environment : Environment) (intent : Intent) (storage : Storage)
    {after : Storage} {effects : List Effect}
    → execute_recovery deployment environment intent storage ≡ ok (after, effects)
    → (closed : Slot) × (close_recovery deployment environment intent (storage intent.account)
        ≡ ok closed)
      × (environment.install_module intent.account intent.new_validator
            intent.new_validator_init_data
            (write storage intent.account closed)
          ≡ some after)
      × (effects ≡ events intent after)
unfolding execute_recovery
execute_recovery_granted deployment environment intent storage {after} {effects} h =
    let (closed, ran, h1) =
      >>=-eq-ok (close_recovery deployment environment intent (storage intent.account)) _ h in
    let (after', installed, done) = >>=-eq-ok (ok_or _ call_failed) _ h1 in
    let same : ◌≡◌ {A = Storage × List Effect} (after', events intent after') (after, effects) =
      ok_injective done in
    let there : after' ≡ after = ap (λ p. p.0) same in
    (
      closed,
      ran,
      ok_or-eq-ok _ call_failed installed ∙ ap (λ a. some a) there,
      ap (λ p. p.1) (sym same) ∙ ap (events intent) there,
    )
