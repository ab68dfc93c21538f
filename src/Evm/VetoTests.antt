-- ===== src/Evm/VetoTests.antt =====
-- The Solidity veto machine at concrete inputs.
use recovery_guardian_contra.Prelude.{ℕ, [], ◌∷◌, List, ◌≡◌, arith, refl, map, bytes_eq}
use recovery_guardian_contra.Prelude.Int.{pos}
use recovery_guardian_contra.Prelude.Results.{ok, err}
use recovery_guardian_contra.Veto
use recovery_guardian_contra.Veto.Traces
use recovery_guardian_contra.Veto.Attempts.{IsTimed}
use recovery_guardian_contra.Veto.Transitions
use recovery_guardian_contra.Veto.Transitions.{Move, aborting, pausing, resuming, executing}
use recovery_guardian_contra.Validation
use recovery_guardian_contra.Evm.Samples.{config}
use recovery_guardian_contra.Evm.GradualVeto.{
  Attempt, State, Revert, start, validate, project, invalid_config,
}
use recovery_guardian_contra.Evm.GradualVeto.Translation.{attempt_of, config_of}
use recovery_guardian_contra.Evm.GradualVeto.Agreement.{run_move}
use recovery_guardian_contra.Evm.GradualVeto.Differential.{
  run_moves, on_solana, started_moves_agree,
}
use recovery_guardian_contra.Evm.GradualVeto.Backwards.{backwards_clock_differs}
use recovery_guardian_contra.Evm.GradualVeto.Validation.{Same, validate_agrees}

-- Paused, at 1000, with ten seconds accrued.
abbrev stopped : Attempt
stopped = record {
  state = State.paused;
  accrued_seconds = 10;
  paused_seconds = 5;
  checkpoint_time = 1000;
}

config-IsTimed : IsTimed (config_of config)
config-IsTimed = omega arith

-- The pause ends by itself, and the attempt matures in one call.
matures :
    project config stopped 1200
    ≡ ok (record {
      state = State.executable;
      accrued_seconds = 100;
      paused_seconds = 30;
      checkpoint_time = 1200;
    })
unfolding project
matures = refl

two_parties :
    validate (record config { abort_authority = config.pause_authority })
    ≡ err (invalid_config "pause and abort held by one party")
unfolding validate bytes_eq
two_parties = refl

-- An executed attempt, after a pause that was lifted, and one call too early.
abbrev moves : List (Move × ℕ)
moves =
    (executing, 1050)
    ∷ (pausing, 1060)
    ∷ (resuming, 1070)
    ∷ (pausing, 1080)
    ∷ (executing, 1150)
    ∷ []

started_moves_agree_example :
    attempt_of (run_moves config (start stopped 1000) moves)
    ≡ Traces.run_moves
        (config_of config)
        (Veto.start (attempt_of stopped) (pos 1000))
        (map on_solana moves)
started_moves_agree_example =
    started_moves_agree config config-IsTimed stopped 1000 moves (omega arith) (omega arith)

backwards_clock_differs_example :
    (run_move aborting config stopped 999 ≡ err Revert.panic)
    × (Veto.project (config_of config) (attempt_of stopped) (pos 999) ≡ attempt_of stopped)
    × (Transitions.run_move aborting (config_of config) (attempt_of stopped) (pos 999)
        ≡ Transitions.run_move aborting (config_of config) (attempt_of stopped) (pos 1000))
backwards_clock_differs_example =
    backwards_clock_differs config stopped 999 refl (omega arith) (omega arith) aborting

validate_agrees_example : Same (validate config) (Validation.validate (config_of config))
validate_agrees_example = validate_agrees config (omega arith)
