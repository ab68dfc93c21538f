-- ===== src/Vault/Tests.antt =====
-- Runs of the vault program at concrete inputs.
use recovery_guardian_contra.Digest.Collision.{Collision}
use recovery_guardian_contra.Vault.Replay.{pause_outdates_endorsements, closed_intent_never_reopens}
use recovery_guardian_contra.Encoding.{to_le_bytes, concat}
use recovery_guardian_contra.Digest.{resume_digest, length_prefixed, intent_digest}
use recovery_guardian_contra.Validation.Independence.{validate_iff}
use recovery_guardian_contra.Prelude.Results.{ok}
use recovery_guardian_contra.Vault.Timelock.{no_rotation_before_timelock}
use recovery_guardian_contra.Prelude.Int.{pos}
use recovery_guardian_contra.Veto.{pause, project, execute, from_ordinal}
use recovery_guardian_contra.Vault.Handlers.{
  pause_recovery, vault_seed, create_vault, empty_veto, apply, execute_transfer, execute_recovery,
}
use recovery_guardian_contra.Vault.Window.{AllInWindow}
use recovery_guardian_contra.Samples.{
  digest, opens, intent, veto, vault, opening, key, opened, deployment, at_time,
}
use recovery_guardian_contra.Vault.Invariant.{IsSound}
use recovery_guardian_contra.Vault.Confinement.{call-Rotates_or_keeps, Rotates}
use recovery_guardian_contra.Vault.Steps.{
  initiating, executing, transferring, pausing, Call, run_call, run_calls,
}
use recovery_guardian_contra.Account.{attempt_from_veto, attempt_to_veto, Vault, config_to_veto}
use recovery_guardian_contra.Prelude.{
  replicate, if◌then◌else◌, false, contains_iff, bytes_eq_iff, refl, ◌≢◌, arith, ◌∷◌, contains,
  bytes_eq, ◌⊎◌, [], ◌≡◌, List,
}
use recovery_guardian_contra.Vault.Context.{
  recovery_paused, vault_created, Deployment, recovery_executed, recovery_initiated, lamports_moved,
  Transaction,
}
use recovery_guardian_contra.Validation.{validate}

pub vault-IsSound : IsSound vault
unfolding validate config_to_veto attempt_to_veto from_ordinal bytes_eq contains
vault-IsSound = record {
  words = omega arith;
  digest_sized = refl;
  independent = λ _. (validate_iff (config_to_veto veto)).0 refl;
  timed = λ _. omega arith;
  roleless = λ _. (
    (λ e. cc ((bytes_eq_iff (key 6) (key 1)).1 e)),
    (λ e. cc ((bytes_eq_iff (key 6) (key 2)).1 e)),
    λ h. cc ((contains_iff veto.resume_members (key 6)).1 h),
  );
  valid = λ _. ground arith;
  quiet = λ h. absurd (cc h);
}

abbrev pausing_t : Transaction
pausing_t = at_time 1010 []

-- The attempt is paused, then lifted by nobody, and then two executions are tried too early.
abbrev calls : List (Transaction × Call)
calls =
    (pausing_t, pausing (key 1))
    ∷ (at_time 1050 [], executing intent)
    ∷ (at_time 1099 [], executing intent)
    ∷ []

calls-AllInWindow : AllInWindow (pos 1000) (config_to_veto veto) calls
unfolding config_to_veto
calls-AllInWindow = ground arith

no_rotation_before_timelock_example : (run_calls deployment calls opened).owner ≡ key 5
no_rotation_before_timelock_example =
    no_rotation_before_timelock deployment (pos 1000) opening vault intent 0 calls vault-IsSound
      refl opens calls-AllInWindow

-- The pause lasts its 30 seconds, so the timelock matures at 1130.
abbrev rotated : Vault
rotated = record opened {
  owner = key 10;
  epoch = 1;
  nonce = 1;
  attempt = record {
    state = 4;
    accrued_seconds = 100;
    paused_seconds = 0;
    checkpoint_time = pos 1100;
  };
}

executes :
    run_call deployment (at_time 1100 []) (executing intent) opened
    ≡ ok (rotated, recovery_executed (key 8) digest (key 10) 1)
unfolding run_call execute_recovery apply execute project attempt_to_veto attempt_from_veto
    config_to_veto bytes_eq intent_digest concat length_prefixed to_le_bytes
executes = refl

call-Rotates_or_keeps_example :
    ((rotated.owner ≡ opened.owner) × (rotated.epoch ≡ opened.epoch))
    ⊎ Rotates deployment (at_time 1100 []) (executing intent) opened rotated
call-Rotates_or_keeps_example =
    call-Rotates_or_keeps deployment (at_time 1100 []) opened (executing intent) executes

pays :
    run_call deployment (at_time 3 []) (transferring (key 5) (key 7) (key 12) 40) vault
    ≡ ok (vault, lamports_moved (key 7) (key 12) 40)
unfolding run_call execute_transfer bytes_eq
pays = refl

opens_call :
    run_call deployment opening (initiating intent 0) vault
    ≡ ok (opened, recovery_initiated (key 8) digest 0)
unfolding run_call
opens_call = opens

closed_intent_never_reopens_example :
    run_call deployment opening (initiating intent 0) (run_calls deployment calls rotated)
    ≢ ok (opened, recovery_initiated (key 8) digest 0)
unfolding run_calls
closed_intent_never_reopens_example =
    closed_intent_never_reopens deployment intent 0 opening vault [] (at_time 1100 [])
      (executing intent) calls opening 0 vault-IsSound tt (tt, (tt, (tt, tt))) opens_call tt tt
      (omega arith) executes

abbrev pub born : Vault
born = record vault {
  recovery_owner = key 0;
  config_nonce = 0;
  veto = empty_veto;
  registered = false;
}

abbrev pub derived : Deployment
derived = record deployment { derive = λ seeds. if contains seeds vault_seed then key 8 else key 7 }

pub creates :
    create_vault derived (key 5) (replicate 16 0) 254 255 (key 7)
    ≡ ok (born, vault_created (key 8) (key 5) (key 5))
unfolding create_vault contains bytes_eq
creates = refl

-- A hash function under which all endorsements collide.
abbrev colliding : Deployment
colliding = record deployment {
  hasher = record { hashv = λ parts. key 0; length-hashv = λ parts. refl };
}

abbrev running : Vault
running = record opened { intent_digest = key 0 }

running-IsSound : IsSound running
unfolding validate config_to_veto attempt_to_veto from_ordinal bytes_eq contains
running-IsSound = record {
  words = omega arith;
  digest_sized = refl;
  independent = vault-IsSound.independent;
  timed = vault-IsSound.timed;
  roleless = vault-IsSound.roleless;
  valid = λ _. ground arith;
  quiet = λ h. absurd (cc h);
}

abbrev stopped : Vault
stopped = record running {
  attempt = record {
    state = 2;
    accrued_seconds = 10;
    paused_seconds = 0;
    checkpoint_time = pos 1010;
  };
  attempt_seq = 2;
}

stops :
    run_call colliding pausing_t (pausing (key 1)) running
    ≡ ok (stopped, recovery_paused (key 8) (key 0))
unfolding run_call pause_recovery apply pause project attempt_to_veto attempt_from_veto
    config_to_veto bytes_eq
stops = refl

pause_outdates_endorsements_example : Collision colliding.hasher
unfolding resume_digest run_calls
pause_outdates_endorsements_example =
    pause_outdates_endorsements colliding pausing_t running (key 1) [] refl refl running-IsSound tt
      (omega arith) stops refl
