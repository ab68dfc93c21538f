-- ===== src/Vault/BoundTests.antt =====
-- The sizes of the account's fields at concrete calls.
use recovery_guardian_contra.Vault.Context.{Transaction}
use recovery_guardian_contra.Vault.Steps.{
  executing, initiating, pausing, registering, Call, run_calls, run_call, step,
}
use recovery_guardian_contra.Encoding.{to_le_bytes, concat}
use recovery_guardian_contra.Digest.{registration_digest, length_prefixed, intent_digest}
use recovery_guardian_contra.Prelude.{
  ◌∷◌, ◌≡◌, refl, [], replicate, arith, List, Bytes, bytes_eq, contains,
}
use recovery_guardian_contra.Validation.{validate}
use recovery_guardian_contra.Veto.{project, pause, execute, start}
use recovery_guardian_contra.Verify.{
  from_le_bytes, require_own, read_u16, verify_slot, verify_detached,
}
use recovery_guardian_contra.Account.{config_to_veto, attempt_from_veto, attempt_to_veto}
use recovery_guardian_contra.Vault.Handlers.{
  registration_of, register, initiate_recovery, pause_recovery, execute_recovery, apply,
}
use recovery_guardian_contra.Vault.Tests.{born, derived, creates}
use recovery_guardian_contra.Samples.{key, intent, at_time, veto, one_entry, opening}
use recovery_guardian_contra.Vault.Bounds.{AllInRange, FitsAccount, FitsSeeds}
use recovery_guardian_contra.Vault.Bounds.Calls.{account_never_outgrows}

abbrev consent : Bytes
consent = registration_of derived born (key 6) veto 0

-- A registration, a recovery, a pause, and the execution once the pause has ended by itself.
abbrev calls : List (Transaction × Call)
calls =
    (at_time 10 (one_entry (key 6) consent), registering (key 5) (key 6) veto 0 0)
    ∷ (opening, initiating intent 0)
    ∷ (at_time 1010 [], pausing (key 1))
    ∷ (at_time 1130 [], executing intent)
    ∷ []

-- All four succeed.
calls_rotate : (run_calls derived calls born).owner ≡ key 10
unfolding run_calls run_call register initiate_recovery pause_recovery execute_recovery apply
    verify_detached verify_slot read_u16 require_own from_le_bytes project pause execute
    attempt_to_veto attempt_from_veto config_to_veto bytes_eq contains registration_digest
    intent_digest concat length_prefixed to_le_bytes validate step start
calls_rotate = refl

calls-AllInRange : AllInRange calls
calls-AllInRange = ground arith

seeds_fit : FitsSeeds (key 5) (replicate 16 0) 254 255
seeds_fit = omega arith

account_never_outgrows_example : FitsAccount (run_calls derived calls born)
account_never_outgrows_example =
    account_never_outgrows derived (key 5) (replicate 16 0) 254 255 (key 7) calls seeds_fit creates
      calls-AllInRange
