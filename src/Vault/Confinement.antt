-- ===== src/Vault/Confinement.antt =====
-- What each instruction of the vault program can change.
use recovery_guardian_contra.Veto.Transitions
use recovery_guardian_contra.Veto.Transitions.{run_move_iff, run_move}
use recovery_guardian_contra.Veto.{execute, abort, resume, State, pause}
use recovery_guardian_contra.Vault.Granted.{
  execute_granted, transfer_granted, abort_granted, resume_granted, apply_granted, pause_granted,
  initiate_granted, register_granted,
}
use recovery_guardian_contra.Vault.Handlers.{
  execute_recovery, abort_recovery, resume_recovery, pause_recovery, initiate_recovery, register,
  projected, intent_of,
}
use recovery_guardian_contra.Prelude.Results.{ok}
use recovery_guardian_contra.Prelude.Int.{ℤ}
use recovery_guardian_contra.Vault.Steps.{
  executing, transferring, aborting, resuming, pausing, initiating, registering, executing,
  run_call, Call,
}
use recovery_guardian_contra.Prelude.Words.{u64_saturating_add, IsU64}
use recovery_guardian_contra.Prelude.{ℕ, Bytes, refl, inr, arith, ◌⊎◌, ◌≡◌, ◌≤◌}
use recovery_guardian_contra.Account.{attempt_to_veto, config_to_veto, Vault}
use recovery_guardian_contra.Vault.Context.{lamports_moved, Intent, Effect, Transaction, Deployment}

-- The owner was rotated by the intent that the attempt was opened for, once its timelock had matured.
pub record Rotates (deployment : Deployment) (t : Transaction) (call : Call) (vault after : Vault)
    : Type 0 where
  pub intent : Intent
  pub now : ℤ
  pub by_execution : call ≡ executing intent
  pub clocked : t.clock ≡ ok now
  pub committed : intent_of deployment intent ≡ vault.intent_digest
  pub matured : (projected vault now).state ≡ State.executable
  pub new_owner : after.owner ≡ intent.new_owner
  pub new_epoch : after.epoch ≡ u64_saturating_add vault.epoch 1
  pub new_nonce : after.nonce ≡ u64_saturating_add vault.nonce 1

-- The four replay counters of an account do not go back.
pub record CountersRise (vault after : Vault) : Type 0 where
  pub epoch_rises : vault.epoch ≤ after.epoch
  pub nonce_rises : vault.nonce ≤ after.nonce
  pub attempt_seq_rises : vault.attempt_seq ≤ after.attempt_seq
  pub config_nonce_rises : vault.config_nonce ≤ after.config_nonce

-- Every counter is a `u64`.
pub record HasWords (vault : Vault) : Type 0 where
  pub epoch_word : IsU64 vault.epoch
  pub nonce_word : IsU64 vault.nonce
  pub attempt_seq_word : IsU64 vault.attempt_seq
  pub config_nonce_word : IsU64 vault.config_nonce

module _ (deployment : Deployment) (t : Transaction) (vault : Vault) {after : Vault}
    {effect : Effect} where
  -- A call that succeeds keeps the owner and the epoch, or it is the execution of the committed
  -- intent on an attempt that is executable at that time, and then the owner is the intent's new
  -- owner and the epoch and the nonce have been bumped (saturating).
  pub call-Rotates_or_keeps :
      (call : Call)
      → run_call deployment t call vault ≡ ok (after, effect)
      → (after.owner ≡ vault.owner) × (after.epoch ≡ vault.epoch)
        ⊎ Rotates deployment t call vault after
  unfolding run_call
  call-Rotates_or_keeps (registering owner recovery_owner veto config_nonce index) h =
      ground
        (arith, register_granted deployment t vault owner recovery_owner veto config_nonce index h)
  call-Rotates_or_keeps (initiating intent index) h =
      ground (arith, initiate_granted deployment t vault intent index h)
  call-Rotates_or_keeps (pausing authority) h =
      let (reached, _, _, applied, done) = pause_granted deployment t vault authority h in
      ground (arith, apply_granted t vault pause applied)
  call-Rotates_or_keeps (resuming signers index) h =
      let (_, _, _, _, applied) = resume_granted deployment t vault signers index h in
      ground (arith, apply_granted t vault resume applied)
  call-Rotates_or_keeps (aborting authority) h =
      let (reached, _, _, applied, done) = abort_granted deployment t vault authority h in
      ground (arith, apply_granted t vault abort applied)
  call-Rotates_or_keeps (executing intent) h =
      let (reached, _, known, _, applied, done) = execute_granted deployment t vault intent h in
      let (now, attempt, clocked, _, executed, kept) = apply_granted t vault execute applied in
      inr (record {
        intent = intent;
        now = now;
        by_execution = refl;
        clocked = clocked;
        committed = known;
        matured =
            (run_move_iff Transitions.executing (config_to_veto vault.veto)
                (attempt_to_veto vault.attempt) now).0
              (attempt, unfold run_move in executed);
        new_owner = ground arith;
        new_epoch = ground arith;
        new_nonce = ground arith;
      })
  call-Rotates_or_keeps (transferring owner vault_sol destination amount) h =
      ground (arith, transfer_granted deployment t vault owner vault_sol destination amount h)

  -- No call that succeeds on a vault whose counters are `u64` words moves one of the four replay
  -- counters back.
  pub call-CountersRise :
      (call : Call)
      → HasWords vault
      → run_call deployment t call vault ≡ ok (after, effect)
      → CountersRise vault after
  unfolding run_call
  call-CountersRise (registering owner recovery_owner veto config_nonce index) words h =
      ground
        (arith, register_granted deployment t vault owner recovery_owner veto config_nonce index h)
  call-CountersRise (initiating intent index) words h =
      ground (arith, initiate_granted deployment t vault intent index h)
  call-CountersRise (pausing authority) words h =
      let (reached, _, _, applied, done) = pause_granted deployment t vault authority h in
      ground (arith, apply_granted t vault pause applied)
  call-CountersRise (resuming signers index) words h =
      let (_, _, _, _, applied) = resume_granted deployment t vault signers index h in
      ground (arith, apply_granted t vault resume applied)
  call-CountersRise (aborting authority) words h =
      let (reached, _, _, applied, done) = abort_granted deployment t vault authority h in
      ground (arith, apply_granted t vault abort applied)
  call-CountersRise (executing intent) words h =
      let (reached, _, _, _, applied, done) = execute_granted deployment t vault intent h in
      ground (arith, apply_granted t vault execute applied)
  call-CountersRise (transferring owner vault_sol destination amount) words h =
      ground (arith, transfer_granted deployment t vault owner vault_sol destination amount h)

module _ (deployment : Deployment) (t : Transaction) (vault : Vault) {after : Vault} where
  -- If a call that succeeds moves lamports, then it is a transfer signed by the vault's current
  -- owner, for that source, destination and amount, and it leaves the vault's account as it was.
  pub lamports_need_owner :
      (call : Call) (source destination : Bytes) (amount : ℕ)
      → run_call deployment t call vault ≡ ok (after, lamports_moved source destination amount)
      → (call ≡ transferring vault.owner source destination amount) × (after ≡ vault)
  unfolding run_call register initiate_recovery pause_recovery resume_recovery abort_recovery
      execute_recovery
  lamports_need_owner (registering owner recovery_owner veto config_nonce index) s d n h =
      ground arith
  lamports_need_owner (initiating intent index) s d n h = ground arith
  lamports_need_owner (pausing authority) s d n h = ground arith
  lamports_need_owner (resuming signers index) s d n h = ground arith
  lamports_need_owner (aborting authority) s d n h = ground arith
  lamports_need_owner (executing intent) s d n h = ground arith
  lamports_need_owner (transferring owner vault_sol destination amount) s d n h =
      ground (arith, transfer_granted deployment t vault owner vault_sol destination amount h)
