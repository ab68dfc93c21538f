-- ===== src/Evm/GradualVeto/Translation.antt =====
-- The configurations, attempts and errors of the Solidity machine as those of the Rust crate.
use recovery_guardian_contra.Prelude.{◌++◌, map, replicate, Bytes, ◌≡◌, Option, some}
use recovery_guardian_contra.Prelude.Results.{Result, ok, err}
use recovery_guardian_contra.Prelude.Int.{pos}
use recovery_guardian_contra.Veto
use recovery_guardian_contra.Veto.{VetoError}
use recovery_guardian_contra.Evm.GradualVeto.{State, Config, Attempt, Revert, invalid_config}

abbrev pub state_of : State → Veto.State
state_of State.none = Veto.State.none
state_of State.initiated = Veto.State.initiated
state_of State.paused = Veto.State.paused
state_of State.executable = Veto.State.executable
state_of State.executed = Veto.State.executed
state_of State.aborted = Veto.State.aborted

-- An address of 20 bytes as one of 32, with zeros in front.
unfoldable pub widened : Bytes → Bytes
widened address = replicate 12 0 ++ address

abbrev pub config_of : Config → Veto.Config
config_of config = record {
  pause_authority = widened config.pause_authority;
  abort_authority = widened config.abort_authority;
  resume_members = map widened config.resume_members;
  resume_threshold = config.resume_threshold;
  timelock_seconds = config.timelock_seconds;
  pause_ceiling_seconds = config.pause_ceiling_seconds;
}

abbrev pub attempt_of : Attempt → Veto.Attempt
attempt_of attempt = record {
  state = state_of attempt.state;
  accrued_seconds = attempt.accrued_seconds;
  paused_seconds = attempt.paused_seconds;
  checkpoint_time = pos attempt.checkpoint_time;
}

-- What the Solidity machine reverts with where the crate returns an error. Solidity has no bound on the
-- number of members, and so no such error.
abbrev pub revert_of : VetoError → Option Revert
revert_of VetoError.not_initiated = some Revert.not_initiated
revert_of VetoError.not_paused = some Revert.not_paused
revert_of VetoError.not_executable = some Revert.not_executable
revert_of VetoError.already_terminal = some Revert.already_terminal
revert_of VetoError.pause_budget_exhausted = some Revert.pause_budget_exhausted
revert_of VetoError.pause_authority_is_zero = some (invalid_config "pauseAuthority is zero")
revert_of VetoError.abort_authority_is_zero = some (invalid_config "abortAuthority is zero")
revert_of VetoError.resume_quorum_is_empty = some (invalid_config "resumeQuorum is empty")
revert_of VetoError.resume_threshold_is_zero = some (invalid_config "resumeThreshold is zero")
revert_of VetoError.resume_threshold_exceeds_membership =
    some (invalid_config "resumeThreshold exceeds membership")
revert_of VetoError.timelock_is_zero = some (invalid_config "timelockSeconds is zero")
revert_of VetoError.pause_ceiling_is_zero = some (invalid_config "pauseCeilingSeconds is zero")
revert_of VetoError.pause_and_abort_held_by_one_party =
    some (invalid_config "pause and abort held by one party")
revert_of VetoError.pause_and_resume_held_by_one_party =
    some (invalid_config "pause and resume held by one party")
revert_of VetoError.resume_and_abort_held_by_one_party =
    some (invalid_config "resume and abort held by one party")
revert_of VetoError.resume_quorum_contains_zero_address =
    some (invalid_config "resumeQuorum contains zero address")
revert_of VetoError.resume_quorum_contains_duplicate =
    some (invalid_config "resumeQuorum contains a duplicate")
revert_of VetoError.too_many_resume_members = Option.none

-- Both calls return, and what they return is the same; or both refuse, for the same reason.
abbrev pub Agrees : {A B : Type 0} → (A → B) → Result Revert A → Result VetoError B → Type 0
Agrees translated (ok value) (ok other) = translated value ≡ other
Agrees translated (err revert) (err error) = revert_of error ≡ some revert
Agrees translated _ _ = ⊥
