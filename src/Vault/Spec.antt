-- ===== src/Vault/Spec.antt =====
-- What the vault promises, without clocks, seconds and signatures: who owns it, which key guards it,
-- and whether a replacement of the owner is under way.
pub mod Refines
pub mod Epochs
use recovery_guardian_contra.Vault.Handlers.{intent_of}
use recovery_guardian_contra.Prelude.Words.{u64_saturating_add}
use recovery_guardian_contra.Vault.Steps.{
  transferring, executing, aborting, resuming, pausing, initiating, registering, Call,
}
use recovery_guardian_contra.Vault.Window.{is_busy}
use recovery_guardian_contra.Vault.Context.{Intent, Deployment}
use recovery_guardian_contra.Account.{VetoConfigAccount, attempt_to_veto, Vault}
use recovery_guardian_contra.Prelude.{List, false, true, ◌≡◌, some, ℕ, All, Option, Bool, Bytes}

-- The account as an observer sees it. `attempt` is the intent that an open attempt is for.
pub record View : Type 0 where
  pub owner : Bytes
  pub guardian : Option Bytes
  pub attempt : Option Bytes
  pub epoch : ℕ
  pub nonce : ℕ
  pub attempt_seq : ℕ
  pub config_nonce : ℕ

abbrev pub only_if {ℓ} : {A : Type ℓ} → Bool → A → Option A
only_if true a = some a
only_if false a = Option.none

abbrev pub view : Vault → View
view vault = record {
  owner = vault.owner;
  guardian = only_if vault.registered vault.recovery_owner;
  attempt = only_if (is_busy (attempt_to_veto vault.attempt).state) vault.intent_digest;
  epoch = vault.epoch;
  nonce = vault.nonce;
  attempt_seq = vault.attempt_seq;
  config_nonce = vault.config_nonce;
}

-- One call that succeeds, as the observer sees it.
pub data Step (deployment : Deployment) (call : Call) (before after : View) : Type 0 where
  enroll :
      (key : Bytes) (veto : VetoConfigAccount) (index : ℕ)
      → call ≡ registering before.owner key veto before.config_nonce index
      → before.attempt ≡ Option.none
      → after ≡ record before {
        guardian = some key;
        config_nonce = u64_saturating_add before.config_nonce 1;
      }
      → Step deployment call before after
  commit :
      (key : Bytes) (intent : Intent) (index : ℕ)
      → call ≡ initiating intent index
      → before.guardian ≡ some key
      → before.attempt ≡ Option.none
      → intent.epoch ≡ before.epoch
      → intent.nonce ≡ before.nonce
      → after ≡ record before {
        attempt = some (intent_of deployment intent);
        attempt_seq = u64_saturating_add before.attempt_seq 1;
      }
      → Step deployment call before after
  suspend :
      (authority digest : Bytes)
      → call ≡ pausing authority
      → before.attempt ≡ some digest
      → after ≡ record before { attempt_seq = u64_saturating_add before.attempt_seq 1 }
      → Step deployment call before after
  lift :
      (signers : List Bytes) (index : ℕ) (digest : Bytes)
      → call ≡ resuming signers index
      → before.attempt ≡ some digest
      → after ≡ before
      → Step deployment call before after
  cancel :
      (authority digest : Bytes)
      → call ≡ aborting authority
      → before.attempt ≡ some digest
      → after ≡ record before { attempt = Option.none; nonce = u64_saturating_add before.nonce 1 }
      → Step deployment call before after
  replace :
      (intent : Intent)
      → call ≡ executing intent
      → before.attempt ≡ some (intent_of deployment intent)
      → intent.epoch ≡ before.epoch
      → after ≡ record before {
        owner = intent.new_owner;
        attempt = Option.none;
        epoch = u64_saturating_add before.epoch 1;
        nonce = u64_saturating_add before.nonce 1;
      }
      → Step deployment call before after
  pay :
      (vault_sol destination : Bytes) (amount : ℕ)
      → call ≡ transferring before.owner vault_sol destination amount
      → after ≡ before
      → Step deployment call before after

-- Any number of steps, whoever takes them.
pub data Reach (deployment : Deployment) (before : View) : View → Type 0 where
  here : Reach deployment before before
  next :
      (call : Call) {between after : View}
      → Reach deployment before between
      → Step deployment call between after
      → Reach deployment before after
