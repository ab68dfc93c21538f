-- ===== src/Evm/GradualVeto/Backwards.antt =====
-- A clock that runs backwards, where the two machines differ.
use recovery_guardian_contra.Prelude.{ℕ, ◌≡◌, ◌<◌, ◌≤◌, arith, true}
use recovery_guardian_contra.Prelude.Int.{pos}
use recovery_guardian_contra.Prelude.Words.{u64_max}
use recovery_guardian_contra.Prelude.Results.{err}
use recovery_guardian_contra.Veto
use recovery_guardian_contra.Veto.Attempts.{is_running}
use recovery_guardian_contra.Veto.Transitions.{Move, pausing, resuming, aborting, executing}
use recovery_guardian_contra.Veto.Transitions
use recovery_guardian_contra.Evm.GradualVeto.{
  Config, Attempt, Revert, project, pause, resume, abort, execute,
}
use recovery_guardian_contra.Evm.GradualVeto.Agreement.{run_move}
use recovery_guardian_contra.Evm.GradualVeto.Translation.{config_of, attempt_of, state_of}

module _ (config : Config) (attempt : Attempt) (timestamp : ℕ)
    (running : is_running (state_of attempt.state) ≡ true)
    (behind : timestamp < attempt.checkpoint_time) (word : attempt.checkpoint_time ≤ u64_max) where
  project_panics : project config attempt timestamp ≡ err Revert.panic
  unfolding project
  project_panics = ground arith

  -- Take a running attempt whose checkpoint is a `uint64` after the block's time. Then pause,
  -- resume, abort and execute of the Solidity machine all panic. The Rust `project` leaves the
  -- attempt as it is, and each of the Rust transitions gives what it gives at the checkpoint's own
  -- time, an error or a changed attempt.
  pub backwards_clock_differs :
      (move : Move)
      → (run_move move config attempt timestamp ≡ err Revert.panic)
        × (Veto.project (config_of config) (attempt_of attempt) (pos timestamp)
            ≡ attempt_of attempt)
        × (Transitions.run_move move (config_of config) (attempt_of attempt) (pos timestamp)
            ≡ Transitions.run_move move
                (config_of config)
                (attempt_of attempt)
                (pos attempt.checkpoint_time))
  unfolding run_move pause resume abort execute Veto.project Transitions.run_move Veto.pause
      Veto.resume Veto.abort Veto.execute
  backwards_clock_differs pausing = ground (arith, project_panics)
  backwards_clock_differs resuming = ground (arith, project_panics)
  backwards_clock_differs aborting = ground (arith, project_panics)
  backwards_clock_differs executing = ground (arith, project_panics)
