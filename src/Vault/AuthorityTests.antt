-- ===== src/Vault/AuthorityTests.antt =====
-- Signatures over the vault's digests at a concrete runtime.
use recovery_guardian_contra.Vault.Replay.{registration_spent}
use recovery_guardian_contra.Vault.Steps.{run_calls, registering, run_call}
use recovery_guardian_contra.Vault.Tests.{vault-IsSound}
use recovery_guardian_contra.Validation.{validate}
use recovery_guardian_contra.Veto.{is_resume_member, project, resume}
use recovery_guardian_contra.Verify.Runtime.{only_instruction, only-Precompile, OnlySigned}
use recovery_guardian_contra.Prelude.Results.{ok}
use recovery_guardian_contra.Vault.Authority.{register_needs_both, resume_needs_quorum, IsRuntime}
use recovery_guardian_contra.Verify.{
  from_le_bytes, require_own, read_u16, verify_slot, verify_detached,
}
use recovery_guardian_contra.Encoding.{to_le_bytes, concat}
use recovery_guardian_contra.Vault.Handlers.{
  register, registration_of, apply, projected, is_idle, resume_of, resume_recovery,
}
use recovery_guardian_contra.Vault.Context.{recovery_key_rotated, recovery_resumed, Transaction}
use recovery_guardian_contra.Account.{config_to_veto, attempt_from_veto, attempt_to_veto, Vault}
use recovery_guardian_contra.Prelude.Int.{pos, ℤ}
use recovery_guardian_contra.Prelude.{
  ◌≢◌, contains, bytes_eq, true, arith, refl, Has, All, [], AllDistinct, ◌∷◌, ◌≡◌, length, take,
  ◌≤◌, Bytes, ℕ,
}
use recovery_guardian_contra.Digest.{
  registration_digest, length_prefixed, resume_digest, intent_digest,
}
use recovery_guardian_contra.Samples.{
  key, digest, opened, vault, deployment, veto, one_entry, at_time,
}

digest-take : take 32 digest ≡ digest
unfolding intent_digest concat length_prefixed to_le_bytes
digest-take = refl

one_entry-IsRuntime :
    (b now : ℕ) (message : Bytes) (fits : take 32 message ≡ message)
    → length message ≡ 32
    → IsRuntime (at_time now (one_entry (key b) message)).sysvar (OnlySigned b message fits)
one_entry-IsRuntime b now message fits sized = record {
  precompile = only-Precompile b message fits;
  payload_fits = λ index ix loaded. rw (only_instruction _ index ix loaded) (omega arith);
}

length-digest : length digest ≡ 32
unfolding intent_digest
length-digest = deployment.hasher.length-hashv _

-- One member suffices here, and the attempt has been paused.
abbrev paused_vault : Vault
paused_vault = record opened {
  veto = record veto { resume_members = key 3 ∷ []; resume_threshold = 1 };
  attempt = record {
    state = 2;
    accrued_seconds = 10;
    paused_seconds = 0;
    checkpoint_time = pos 1010;
  };
  attempt_seq = 2;
}

abbrev lifted : Vault
lifted = record paused_vault {
  attempt = record {
    state = 1;
    accrued_seconds = 10;
    paused_seconds = 5;
    checkpoint_time = pos 1015;
  };
}

abbrev endorsement : Bytes
endorsement = resume_of deployment paused_vault

abbrev lifting : Transaction
lifting = at_time 1015 (one_entry (key 3) endorsement)

lifts :
    resume_recovery deployment lifting (key 3 ∷ []) 0 paused_vault
    ≡ ok (lifted, recovery_resumed (key 8) digest)
unfolding resume_recovery verify_detached verify_slot read_u16 require_own from_le_bytes apply
    resume project attempt_to_veto attempt_from_veto config_to_veto bytes_eq contains intent_digest
    resume_digest concat length_prefixed to_le_bytes is_resume_member
lifts = refl

endorsement-take : take 32 endorsement ≡ endorsement
unfolding resume_digest intent_digest concat length_prefixed to_le_bytes
endorsement-take = refl

length-endorsement : length endorsement ≡ 32
unfolding resume_digest
length-endorsement = deployment.hasher.length-hashv _

resume_needs_quorum_example :
    (1 ≤ 1)
    × AllDistinct (key 3 ∷ [])
    × All (λ signer. Has (key 3 ∷ []) signer) (key 3 ∷ [])
    × All (λ signer. OnlySigned 3 endorsement endorsement-take signer endorsement) (key 3 ∷ [])
resume_needs_quorum_example =
    resume_needs_quorum deployment lifting (OnlySigned 3 endorsement endorsement-take)
      (one_entry-IsRuntime 3 1015 endorsement endorsement-take length-endorsement) paused_vault
      (key 3 ∷ []) 0 lifts

abbrev consent : Bytes
consent = registration_of deployment vault (key 12) veto 1

abbrev registering_t : Transaction
registering_t = at_time 20 (one_entry (key 12) consent)

abbrev rebound : Vault
rebound = record vault { recovery_owner = key 12; config_nonce = 2 }

registers :
    register deployment registering_t (key 5) (key 12) veto 1 0 vault
    ≡ ok (rebound, recovery_key_rotated (key 8) (key 6) (key 12) 2)
unfolding register verify_detached verify_slot read_u16 require_own from_le_bytes project
    attempt_to_veto config_to_veto bytes_eq contains registration_digest concat length_prefixed
    to_le_bytes validate
registers = refl

consent-take : take 32 consent ≡ consent
unfolding registration_digest concat length_prefixed to_le_bytes
consent-take = refl

length-consent : length consent ≡ 32
unfolding registration_digest
length-consent = deployment.hasher.length-hashv _

register_needs_both_example :
    (now : ℤ) × (registering_t.clock ≡ ok now)
    × (key 5 ≡ vault.owner)
    × OnlySigned 12 consent consent-take (key 12) (registration_of deployment vault (key 12) veto 1)
    × (is_idle (projected vault now).state ≡ true)
    × (rebound.recovery_owner ≡ key 12)
    × (rebound.veto ≡ veto)
register_needs_both_example =
    register_needs_both deployment registering_t (OnlySigned 12 consent consent-take)
      (one_entry-IsRuntime 12 20 consent consent-take length-consent) vault (key 5) (key 12) veto 1
      0 registers

registration_spent_example :
    run_call deployment registering_t
      (registering (key 5) (key 12) veto 1 0)
      (run_calls deployment [] rebound)
    ≢ ok (rebound, recovery_key_rotated (key 8) (key 6) (key 12) 2)
unfolding run_call register run_calls
registration_spent_example =
    registration_spent deployment registering_t vault (key 5) (key 12) veto 1 0 [] registering_t
      (key 5) (key 12) veto 0 vault-IsSound (omega arith) tt (omega arith) registers
