-- ===== src/Veto/Tests.antt =====
-- Runs of the veto machine at concrete inputs.
use recovery_guardian_contra.Veto.Ticks.{project-eq-ticks, moved_to, seconds_ahead, ticks}
use recovery_guardian_contra.Veto.Accounting.{pauses_cannot_outlast, no_early_execution}
use recovery_guardian_contra.Veto.Transitions.{pausing, resuming, aborting, executing}
use recovery_guardian_contra.Prelude.Int.{ℤ, pos}
use recovery_guardian_contra.Veto.Transitions.{resuming, Move, run_move}
use recovery_guardian_contra.Veto.Polling.{replay_total, progress}
use recovery_guardian_contra.Veto.Traces.{run_moves}
use recovery_guardian_contra.Prelude.{
  true, refl, ◌⊎◌, some, [], ◌≡◌, ◌∷◌, ◌≢◌, arith, replicate, List,
}
use recovery_guardian_contra.Veto.Attempts.{IsValid, IsTimed}
use recovery_guardian_contra.Veto.{
  is_terminal, replay_fuel, pos, start, replay, execute, State, project, Attempt, Config,
}

abbrev config : Config
config = record {
  pause_authority = replicate 32 1;
  abort_authority = replicate 32 2;
  resume_members = replicate 32 3 ∷ replicate 32 4 ∷ [];
  resume_threshold = 2;
  timelock_seconds = 100;
  pause_ceiling_seconds = 30;
}

config-IsTimed : IsTimed config
config-IsTimed = omega arith

-- Ten seconds accrued and five paused, at 1000.
abbrev stopped : Attempt
stopped = record {
  state = State.paused;
  accrued_seconds = 10;
  paused_seconds = 5;
  checkpoint_time = pos 1000;
}

stopped-IsValid : IsValid config stopped
stopped-IsValid = ground arith

-- The pause ends by itself after 25 seconds, and the rest accrues.
auto_resume : progress (project config stopped (pos 1040)) ≡ (State.initiated, 25, 30)
unfolding project
auto_resume = refl

matures : (project config stopped (pos 1115)).state ≡ State.executable
unfolding project
matures = refl

backwards_clock : project config stopped (pos 7) ≡ stopped
unfolding project
backwards_clock = refl

abbrev moves : List (Move × ℤ)
moves = (pausing, pos 10) ∷ (resuming, pos 20) ∷ (pausing, pos 25) ∷ (executing, pos 60) ∷ []

abbrev vetoes : List (Move × ℤ)
vetoes = (pausing, pos 10) ∷ (resuming, pos 20) ∷ (aborting, pos 95) ∷ (pausing, pos 96) ∷ []

late_execution :
    (run_moves config
      (start stopped (pos 0))
      ((executing, pos 99) ∷ (executing, pos 100) ∷ [])).state
    ≡ State.executed
unfolding run_moves run_move execute project start
late_execution = refl

project-eq-ticks_example :
    project config stopped (pos 1040)
    ≡ ticks config (seconds_ahead stopped (pos 1040)) (moved_to stopped (pos 1040))
project-eq-ticks_example = project-eq-ticks config stopped (pos 1040) config-IsTimed stopped-IsValid

replay_total_example :
    (result : Attempt) × (replay replay_fuel config stopped 40 ≡ some result)
    × (replay 9 config stopped 40 ≡ some result)
replay_total_example = replay_total 6 config stopped 40

no_early_execution_example :
    ((run_moves config (start stopped (pos 0)) moves).state ≢ State.executable)
    × ((run_moves config (start stopped (pos 0)) moves).state ≢ State.executed)
no_early_execution_example =
    no_early_execution config (pos 0) config-IsTimed stopped moves (omega arith) (omega arith)

pauses_cannot_outlast_example :
    let reached =
      (project config (run_moves config (start stopped (pos 0)) moves) (pos 130)).state in
    (reached ≡ State.executable) ⊎ (is_terminal reached ≡ true)
pauses_cannot_outlast_example =
    pauses_cannot_outlast config (pos 0) config-IsTimed stopped moves (pos 130) (omega arith)
      (omega arith) (omega arith)
