-- ===== src/Evm/RecoveryModule/Authority.antt =====
-- Who may make each call, and which call installs a validator.
use recovery_guardian_contra.Prelude.{
  List, [], Bytes, ◌≡◌, ◌≤◌, ◌<◌, some, arith, All, AllDistinct, Has, length, true, false,
  bytes_eq_iff, bytes_eq, not, leb, ◌==◌,
}
use recovery_guardian_contra.Prelude.Results.{ok, require-eq-ok, >>=-eq-ok, map_err-eq-ok}
use recovery_guardian_contra.Evm.GradualVeto
use recovery_guardian_contra.Evm.GradualVeto.Matured.{HasMatured, executed_from}
use recovery_guardian_contra.Evm.GradualVeto.{Address, Config, State, is_resume_member, state_eq}
use recovery_guardian_contra.Evm.TypedData.{Intent, Deployment, hash_intent, resume_digest}
use recovery_guardian_contra.Evm.RecoveryModule.{
  Storage, Slot, Effect, Environment, initiate_recovery, abort, close_recovery, on_install,
  on_uninstall, pause, resume, check_signers, gradual_veto, in_veto,
}
use recovery_guardian_contra.Evm.RecoveryModule.Calls.{
  Call, installing, uninstalling, initiating, pausing, aborting, resuming, executing, run_call,
}
use recovery_guardian_contra.Evm.RecoveryModule.Slots.{on_slot_granted, execute_recovery_granted}
use recovery_guardian_contra.Evm.RecoveryModule.Signers.{AllSigned, check_signers_lem}

module _ (deployment : Deployment) (environment : Environment) where
  open environment use {sender, timestamp}
  open deployment use {recover}

  -- What each call was authorised by, before it ran.
  abbrev pub IsAuthorised : Call → Storage → Type 0
  IsAuthorised (installing recovery_owner veto) storage = (storage sender).config.installed ≡ false
  IsAuthorised uninstalling storage = (storage sender).config.installed ≡ true
  IsAuthorised (initiating intent signature) storage =
      let config = (storage intent.account).config in
      (config.installed ≡ true)
      × (recover (hash_intent deployment intent) signature ≡ some config.recovery_owner)
      × (timestamp < intent.expiry)
      × (intent.epoch ≡ config.epoch)
      × (intent.nonce ≡ config.nonce)
  IsAuthorised (pausing account) storage =
      ((storage account).config.installed ≡ true)
      × (sender ≡ (storage account).config.veto.pause_authority)
  IsAuthorised (aborting account) storage =
      ((storage account).config.installed ≡ true)
      × (sender ≡ (storage account).config.veto.abort_authority)
  IsAuthorised (resuming account signers signatures) storage =
      let config = (storage account).config in
      (config.installed ≡ true)
      × (config.veto.resume_threshold ≤ length signers)
      × All (λ signer. Has config.veto.resume_members signer) signers
      × AllDistinct signers
      × AllSigned deployment
          (resume_digest deployment account (storage account).attempt.intent_hash
            config.attempt_seq)
          signers signatures
  IsAuthorised (executing intent) storage =
      let slot = storage intent.account in
      (slot.config.installed ≡ true)
      × (hash_intent deployment intent ≡ slot.attempt.intent_hash)
      × (intent.epoch ≡ slot.config.epoch)
      × HasMatured slot.config.veto slot.attempt.veto timestamp

  pub initiate_authorised :
      (intent : Intent) (signature : Bytes) (before after : Slot) (effects : List Effect)
      → initiate_recovery deployment environment intent signature before ≡ ok (after, effects)
      → (before.config.installed ≡ true)
        × (recover (hash_intent deployment intent) signature ≡ some before.config.recovery_owner)
        × (timestamp < intent.expiry)
        × (intent.epoch ≡ before.config.epoch)
        × (intent.nonce ≡ before.config.nonce)
  unfolding initiate_recovery
  initiate_authorised intent signature before after effects h = grind (arith, bytes_eq_iff)

  pause_authorised :
      (account : Address) (before after : Slot) (effects : List Effect)
      → pause deployment environment account before ≡ ok (after, effects)
      → (before.config.installed ≡ true) × (sender ≡ before.config.veto.pause_authority)
  unfolding pause
  pause_authorised account before after effects h =
      ground (arith, bytes_eq_iff sender before.config.veto.pause_authority)

  abort_authorised :
      (account : Address) (before after : Slot) (effects : List Effect)
      → abort deployment environment account before ≡ ok (after, effects)
      → (before.config.installed ≡ true) × (sender ≡ before.config.veto.abort_authority)
  unfolding abort
  abort_authorised account before after effects h =
      ground (arith, bytes_eq_iff sender before.config.veto.abort_authority)

  close_authorised :
      (intent : Intent) (before after : Slot)
      → close_recovery deployment environment intent before ≡ ok after
      → (before.config.installed ≡ true)
        × (hash_intent deployment intent ≡ before.attempt.intent_hash)
        × (intent.epoch ≡ before.config.epoch)
        × HasMatured before.config.veto before.attempt.veto timestamp
  unfolding close_recovery
  close_authorised intent before after h =
      let (installed, h1) = require-eq-ok before.config.installed _ _ h in
      let (_, h2) = require-eq-ok (not (state_eq before.attempt.veto.state State.none)) _ _ h1 in
      let (committed, h3) =
        require-eq-ok (bytes_eq (hash_intent deployment intent) before.attempt.intent_hash) _ _
          h2 in
      let (epoch, h4) = require-eq-ok (intent.epoch == before.config.epoch) _ _ h3 in
      let (executed, ran, _) =
        >>=-eq-ok (in_veto (GradualVeto.execute before.config.veto before.attempt.veto timestamp)) _
          h4 in
      (
        installed,
        (bytes_eq_iff _ _).0 committed,
        ground (arith, epoch),
        executed_from before.config.veto before.attempt.veto timestamp
            (map_err-eq-ok gradual_veto _ ran),
      )

  resume_authorised :
      (account : Address) (signers : List Address) (signatures : List Bytes) (before after : Slot)
      (effects : List Effect)
      → resume deployment environment account signers signatures before ≡ ok (after, effects)
      → (before.config.installed ≡ true)
        × (before.config.veto.resume_threshold ≤ length signers)
        × All (λ signer. Has before.config.veto.resume_members signer) signers
        × AllDistinct signers
        × AllSigned deployment
            (resume_digest deployment account before.attempt.intent_hash before.config.attempt_seq)
            signers
            signatures
  unfolding resume
  resume_authorised account signers signatures before after effects h =
      let (installed, h1) = require-eq-ok before.config.installed _ _ h in
      let (_, h2) = require-eq-ok (not (state_eq before.attempt.veto.state State.none)) _ _ h1 in
      let (_, h3) = require-eq-ok (length signers == length signatures) _ _ h2 in
      let (enough, h4) =
        require-eq-ok (leb before.config.veto.resume_threshold (length signers)) _ _ h3 in
      let digest =
        resume_digest deployment account before.attempt.intent_hash before.config.attempt_seq in
      let (counted, checked, _) =
        >>=-eq-ok
          (check_signers deployment environment before.config.veto digest [] signers signatures 0) _
          h4 in
      let (members, _, distinct, all_signed) =
        check_signers_lem deployment environment before.config.veto digest [] signers signatures 0
          counted checked in
      (installed, ground (arith, enough), members, distinct, all_signed)

  install_authorised :
      (recovery_owner : Address) (veto : Config) (before after : Slot) (effects : List Effect)
      → on_install environment recovery_owner veto before ≡ ok (after, effects)
      → before.config.installed ≡ false
  unfolding on_install
  install_authorised recovery_owner veto before after effects h = ground arith

  uninstall_authorised :
      (before after : Slot) (effects : List Effect)
      → on_uninstall environment before ≡ ok (after, effects)
      → before.config.installed ≡ true
  unfolding on_uninstall
  uninstall_authorised before after effects h = ground arith

  -- A call that succeeds was authorised: an installation came to an account without the module, an
  -- opening has the recovery key's signature over the intent for the account's epoch and nonce
  -- before its expiry, a pause and an abort came from their authorities, a resume has signatures
  -- over the current digest from distinct members, at least the threshold, and an execution is of
  -- the committed intent on an attempt that has matured.
  pub run_call-IsAuthorised :
      (call : Call) (before after : Storage) (effects : List Effect)
      → run_call deployment environment call before ≡ ok (after, effects)
      → IsAuthorised call before
  unfolding run_call
  run_call-IsAuthorised (installing recovery_owner veto) before after effects h =
      let (slot, ran, _) =
        on_slot_granted sender (on_install environment recovery_owner veto) before h in
      install_authorised recovery_owner veto (before sender) slot effects ran
  run_call-IsAuthorised uninstalling before after effects h =
      let (slot, ran, _) = on_slot_granted sender (on_uninstall environment) before h in
      uninstall_authorised (before sender) slot effects ran
  run_call-IsAuthorised (initiating intent signature) before after effects h =
      let (slot, ran, _) =
        on_slot_granted intent.account (initiate_recovery deployment environment intent signature)
          before h in
      initiate_authorised intent signature (before intent.account) slot effects ran
  run_call-IsAuthorised (pausing account) before after effects h =
      let (slot, ran, _) =
        on_slot_granted account (pause deployment environment account) before h in
      pause_authorised account (before account) slot effects ran
  run_call-IsAuthorised (aborting account) before after effects h =
      let (slot, ran, _) =
        on_slot_granted account (abort deployment environment account) before h in
      abort_authorised account (before account) slot effects ran
  run_call-IsAuthorised (resuming account signers signatures) before after effects h =
      let (slot, ran, _) =
        on_slot_granted account (resume deployment environment account signers signatures) before
          h in
      resume_authorised account signers signatures (before account) slot effects ran
  run_call-IsAuthorised (executing intent) before after effects h =
      let (closed, ran, _, _) = execute_recovery_granted deployment environment intent before h in
      close_authorised intent (before intent.account) closed ran
