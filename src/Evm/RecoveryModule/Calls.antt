-- ===== src/Evm/RecoveryModule/Calls.antt =====
-- The module's external functions as calls, and sequences of them. While an account installs a
-- validator, it may call the module again.
use recovery_guardian_contra.Prelude.{List, Bytes, ◌≡◌, some}
use recovery_guardian_contra.Prelude.Results.{ok}
use recovery_guardian_contra.Evm.GradualVeto.{Config, Address}
use recovery_guardian_contra.Evm.TypedData.{Intent, Deployment}
use recovery_guardian_contra.Evm.RecoveryModule.{
  Storage, Effect, Environment, Outcome, on_slot, on_install, on_uninstall, initiate_recovery,
  pause, resume, abort, execute_recovery,
}

pub data Call : Type 0 where
  installing : (recovery_owner : Address) (config : Config) → Call
  uninstalling : Call
  initiating : (intent : Intent) (signature : Bytes) → Call
  pausing aborting : (account : Address) → Call
  resuming : (account : Address) (signers : List Address) (signatures : List Bytes) → Call
  executing : (intent : Intent) → Call

module _ (deployment : Deployment) where
  unfoldable pub run_call : Environment → Call → Storage → Outcome
  unfolding on_slot
  run_call environment (installing recovery_owner config) =
      on_slot environment.sender (on_install environment recovery_owner config)
  run_call environment uninstalling = on_slot environment.sender (on_uninstall environment)
  run_call environment (initiating intent signature) =
      on_slot intent.account (initiate_recovery deployment environment intent signature)
  run_call environment (pausing account) = on_slot account (pause deployment environment account)
  run_call environment (resuming account signers signatures) =
      on_slot account (resume deployment environment account signers signatures)
  run_call environment (aborting account) = on_slot account (abort deployment environment account)
  run_call environment (executing intent) = execute_recovery deployment environment intent

-- Any number of calls that succeed, by anybody and at any time, each of which `Made` holds of. What an
-- installation leaves is reached by calls as well.
pub data Reach (deployment : Deployment) (Made : Environment → Call → Type 0)
    : Storage → Storage → Type 0 where
  here : (storage : Storage) → Reach deployment Made storage storage
  next :
      (environment : Environment) (call : Call) {before between after : Storage}
      {effects : List Effect}
      → Reach deployment Made before between
      → Made environment call
      → ((account validator : Address) (init_data : Bytes) (entered left : Storage)
          → environment.install_module account validator init_data entered ≡ some left
          → Reach deployment Made entered left)
      → run_call deployment environment call between ≡ ok (after, effects)
      → Reach deployment Made before after

-- What an installation in this environment leaves is related to what it found.
abbrev pub Reentering : (Storage → Storage → Type 0) → Environment → Type 0
Reentering Related environment =
    (account validator : Address) (init_data : Bytes) (entered left : Storage)
    → environment.install_module account validator init_data entered ≡ some left
    → Related entered left

-- A preorder that each call keeps, given that the calls within it do, holds along any calls.
module _ (deployment : Deployment) (Made : Environment → Call → Type 0)
    (Related : Storage → Storage → Type 0) (same : (storage : Storage) → Related storage storage)
    (joined : (a b c : Storage) → Related a b → Related b c → Related a c)
    (kept : (environment : Environment) (call : Call) (before after : Storage)
        (effects : List Effect)
      → Made environment call
      → Reentering Related environment
      → run_call deployment environment call before ≡ ok (after, effects)
      → Related before after) where
  pub Reach-Related :
      {before after : Storage} → Reach deployment Made before after → Related before after
  Reach-Related (here storage) = same storage
  Reach-Related
        (next environment call {before} {between} {after} {effects} reached made within ran) =
      joined before between after (Reach-Related reached) (
        kept environment call between after effects made
          (λ account validator init_data entered left left_behind.
            Reach-Related (within account validator init_data entered left left_behind))
          ran)
