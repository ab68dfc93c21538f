-- ===== src/Evm/GradualVeto/Agreement.antt =====
-- The Solidity machine beside the Rust crate, one call at a time.
use recovery_guardian_contra.Prelude.{ℕ, ◌≡◌, ◌≤◌, arith}
use recovery_guardian_contra.Prelude.Int.{pos}
use recovery_guardian_contra.Prelude.Words.{i64_max}
use recovery_guardian_contra.Prelude.Results.{ok, map_ok}
use recovery_guardian_contra.Veto
use recovery_guardian_contra.Veto.Attempts.{IsTimed, IsValid}
use recovery_guardian_contra.Veto.Transitions.{Move, pausing, resuming, aborting, executing}
use recovery_guardian_contra.Veto.Transitions
use recovery_guardian_contra.Evm.GradualVeto.{
  Config, Attempt, Transition, project, pause, resume, abort, execute,
}
use recovery_guardian_contra.Evm.GradualVeto.Translation.{config_of, attempt_of, Agrees}

unfoldable pub run_move : Move → Transition
run_move pausing = pause
run_move resuming = resume
run_move aborting = abort
run_move executing = execute

module _ (config : Config) (attempt : Attempt) (timestamp : ℕ) (timed : IsTimed (config_of config))
    (valid : IsValid (config_of config) (attempt_of attempt))
    (ahead : attempt.checkpoint_time ≤ timestamp) (word : timestamp ≤ i64_max) where
  pub project_agrees :
      map_ok attempt_of (project config attempt timestamp)
      ≡ ok (Veto.project (config_of config) (attempt_of attempt) (pos timestamp))
  unfolding project Veto.project
  project_agrees = ground arith

  pub run_move-Agrees :
      (move : Move)
      → Agrees attempt_of
          (run_move move config attempt timestamp)
          (Transitions.run_move move (config_of config) (attempt_of attempt) (pos timestamp))
  unfolding run_move Transitions.run_move pause resume abort execute Veto.pause Veto.resume
      Veto.abort Veto.execute
  run_move-Agrees pausing = ground (arith, project_agrees)
  run_move-Agrees resuming = ground (arith, project_agrees)
  run_move-Agrees aborting = ground (arith, project_agrees)
  run_move-Agrees executing = ground (arith, project_agrees)
