-- ===== src/Digest/Tests.antt =====
-- The digests and the cluster tag at concrete inputs.
use recovery_guardian_contra.Digest.{registration_digest, intent_digest, Hasher}
use recovery_guardian_contra.Digest.Domains.{domains_disjoint}
use recovery_guardian_contra.Digest.Binding.{intent_digest_binds}
use recovery_guardian_contra.Digest.Collision.{Collision}
use recovery_guardian_contra.Prelude.{inl, refl, [], ◌⊎◌, arith, ◌∷◌, ◌≡◌}
use recovery_guardian_contra.Digest.Inputs.{
  IsResumeInput, IsRegistrationInput, IsIntentInput, ResumeInput, RegistrationInput, IntentInput,
}
use recovery_guardian_contra.Samples.{key}
use recovery_guardian_contra.Account.{VetoConfigAccount, fingerprint}
use recovery_guardian_contra.Account.Fingerprint.{
  registration_binds_veto, registration_for, IsVetoConfig,
}
use recovery_guardian_contra.Cluster.{localnet}
use recovery_guardian_contra.Prelude.Int.{pos}

-- A hash function under which all inputs collide.
abbrev constant : Hasher
constant = record { hashv = λ parts. key 0; length-hashv = λ parts. refl }

abbrev intent : IntentInput
intent = record {
  cluster = localnet;
  program_id = key 9;
  vault = key 8;
  epoch = 1;
  nonce = 2;
  new_owner = key 10;
  new_owner_config = 7 ∷ [];
  expiry = pos 5000;
}

abbrev registration : RegistrationInput
registration = record {
  cluster = localnet;
  program_id = key 9;
  vault = key 8;
  owner = key 5;
  recovery_owner = key 6;
  veto_fingerprint = key 4;
  config_nonce = 1;
}

abbrev resumed : ResumeInput
resumed = record {
  cluster = localnet;
  program_id = key 9;
  vault = key 8;
  intent_digest = key 3;
  attempt_seq = 2;
}

intent-IsIntentInput : IsIntentInput intent
intent-IsIntentInput = record {
  program_key = refl;
  vault_key = refl;
  epoch_word = omega arith;
  nonce_word = omega arith;
  owner_key = refl;
  expiry_word = omega arith;
}

registration-IsRegistrationInput : IsRegistrationInput registration
registration-IsRegistrationInput = record {
  program_key = refl;
  vault_key = refl;
  owner_key = refl;
  recovery_key = refl;
  fingerprint_key = refl;
  nonce_word = omega arith;
}

resumed-IsResumeInput : IsResumeInput resumed
resumed-IsResumeInput = record {
  program_key = refl;
  vault_key = refl;
  digest_key = refl;
  seq_word = omega arith;
}

intent_digest_binds_example :
    (intent ≡ record intent { nonce = 3; new_owner_config = 8 ∷ 9 ∷ [] }) ⊎ Collision constant
unfolding intent_digest
intent_digest_binds_example =
    intent_digest_binds constant intent (record intent { nonce = 3; new_owner_config = 8 ∷ 9 ∷ [] })
      intent-IsIntentInput
      (record {
        program_key = refl;
        vault_key = refl;
        epoch_word = omega arith;
        nonce_word = omega arith;
        owner_key = refl;
        expiry_word = omega arith;
      })
      refl

abbrev veto : VetoConfigAccount
veto = record {
  pause_authority = key 1;
  abort_authority = key 2;
  resume_members = key 3 ∷ key 4 ∷ [];
  resume_threshold = 2;
  timelock_seconds = 100;
  pause_ceiling_seconds = 30;
}

veto-IsVetoConfig : IsVetoConfig veto
veto-IsVetoConfig = record {
  pause_key = refl;
  abort_key = refl;
  member_keys = (refl, (refl, tt));
  counted = omega arith;
  timelock_word = omega arith;
  ceiling_word = omega arith;
}

-- One member less, and another threshold.
abbrev other_veto : VetoConfigAccount
other_veto = record veto { resume_members = key 3 ∷ []; resume_threshold = 1 }

registration_binds_veto_example :
    ((registration_for constant registration veto
        ≡ registration_for constant registration other_veto)
      × (veto ≡ other_veto))
    ⊎ Collision constant
unfolding registration_digest fingerprint
registration_binds_veto_example =
    registration_binds_veto constant registration registration veto other_veto
      registration-IsRegistrationInput registration-IsRegistrationInput veto-IsVetoConfig
      (record {
        pause_key = refl;
        abort_key = refl;
        member_keys = (refl, tt);
        counted = omega arith;
        timelock_word = omega arith;
        ceiling_word = omega arith;
      })
      refl

domains_disjoint_example : Collision constant
unfolding registration_digest intent_digest
domains_disjoint_example = domains_disjoint constant registration intent resumed (inl refl)
