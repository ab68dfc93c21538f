-- ===== src/Evm/GradualVeto/Bounds.antt =====
-- The counters of an attempt stay within its configuration, and the loop of `project` ends.
use recovery_guardian_contra.Prelude.{ℕ, ◌≡◌, ◌≢◌, ◌≤◌, arith}
use recovery_guardian_contra.Prelude.Results.{ok, err}
use recovery_guardian_contra.Evm.GradualVeto.{
  Config, Attempt, Revert, project, pause, resume, abort, execute,
}

pub record IsBounded (config : Config) (attempt : Attempt) : Type 0 where
  pub accrued_within : attempt.accrued_seconds ≤ config.timelock_seconds
  pub paused_within : attempt.paused_seconds ≤ config.pause_ceiling_seconds

-- Three rounds are enough.
pub project_ends :
    (config : Config) (attempt : Attempt) (timestamp : ℕ)
    → project config attempt timestamp ≢ err Revert.out_of_gas
unfolding project
project_ends config attempt timestamp h = ground arith

pub project-IsBounded :
    (config : Config) (attempt : Attempt) (timestamp : ℕ) {after : Attempt}
    → IsBounded config attempt
    → project config attempt timestamp ≡ ok after
    → IsBounded config after
unfolding project
project-IsBounded config attempt timestamp bounded h = ground arith

module _ (config : Config) (attempt : Attempt) (timestamp : ℕ) {after : Attempt}
    (bounded : IsBounded config attempt) where
  pub pause-IsBounded : pause config attempt timestamp ≡ ok after → IsBounded config after
  unfolding pause
  pause-IsBounded h = grind (arith, project-IsBounded)

  pub resume-IsBounded : resume config attempt timestamp ≡ ok after → IsBounded config after
  unfolding resume
  resume-IsBounded h = grind (arith, project-IsBounded)

  pub abort-IsBounded : abort config attempt timestamp ≡ ok after → IsBounded config after
  unfolding abort
  abort-IsBounded h = grind (arith, project-IsBounded)

  pub execute-IsBounded : execute config attempt timestamp ≡ ok after → IsBounded config after
  unfolding execute
  execute-IsBounded h = grind (arith, project-IsBounded)
