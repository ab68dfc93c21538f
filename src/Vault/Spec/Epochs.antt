-- ===== src/Vault/Spec/Epochs.antt =====
-- Owners and epochs: what the promises of the vault say of its history.
use recovery_guardian_contra.Account.{Vault}
use recovery_guardian_contra.Prelude.Words.{u64_max}
use recovery_guardian_contra.Prelude.{refl, inr, arith, inl, ◌⊎◌, ◌≡◌, List, ◌<◌}
use recovery_guardian_contra.Vault.Steps.{run_calls, Call}
use recovery_guardian_contra.Vault.Context.{Transaction, Deployment}
use recovery_guardian_contra.Vault.Spec.{Vault, List, Call, Deployment, View, Step, Reach}
use recovery_guardian_contra.Vault.Spec.Refines.{run_calls-Reach}

-- Below saturation, a step keeps the owner or opens a new epoch.
Step-epoch :
    (deployment : Deployment) (call : Call) {before after : View}
    → Step deployment call before after
    → after.epoch < u64_max
    → ((after.epoch ≡ before.epoch) × (after.owner ≡ before.owner)) ⊎ (before.epoch < after.epoch)
Step-epoch deployment call (Step.enroll key veto index c quiet e) low = inl (ground arith)
Step-epoch deployment call (Step.commit key intent index c guarded quiet epoch nonce e) low =
    inl (ground arith)
Step-epoch deployment call (Step.suspend authority digest c active e) low = inl (ground arith)
Step-epoch deployment call (Step.lift signers index digest c active e) low = inl (ground arith)
Step-epoch deployment call (Step.cancel authority digest c active e) low = inl (ground arith)
Step-epoch deployment call (Step.replace intent c active epoch e) low = inr (ground arith)
Step-epoch deployment call (Step.pay vault_sol destination amount c e) low = inl (ground arith)

Reach-epoch :
    (deployment : Deployment) {before after : View}
    → Reach deployment before after
    → after.epoch < u64_max
    → ((after.epoch ≡ before.epoch) × (after.owner ≡ before.owner)) ⊎ (before.epoch < after.epoch)
Reach-epoch deployment Reach.here low = inl (refl, refl)
Reach-epoch deployment (Reach.next call rest last) low =
    let here = Step-epoch deployment call last low in
    ground (arith, here, Reach-epoch deployment rest)

-- Take any calls after which the epoch is below the largest `u64` and as it was before them. Then
-- the owner is as before too.
pub one_owner_per_epoch :
    (deployment : Deployment) (calls : List (Transaction × Call)) (vault : Vault)
    → (run_calls deployment calls vault).epoch < u64_max
    → (run_calls deployment calls vault).epoch ≡ vault.epoch
    → (run_calls deployment calls vault).owner ≡ vault.owner
one_owner_per_epoch deployment calls vault low same =
    ground (arith, Reach-epoch deployment (run_calls-Reach deployment calls vault) low)
