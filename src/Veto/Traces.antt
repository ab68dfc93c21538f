-- ===== src/Veto/Traces.antt =====
-- What holds of an attempt over every sequence of moves, at any times, by anybody.
use recovery_guardian_contra.Veto.Transitions.{
  aborting, resuming, pausing, executing, run_move, Move,
}
use recovery_guardian_contra.Prelude.Int.{monus, ℤ}
use recovery_guardian_contra.Prelude.{refl, ◌<◌, [], ◌∷◌, arith, ◌≢◌, ℕ, List}
use recovery_guardian_contra.Veto.{
  execute, abort, State, resume, project, pause, Attempt, VetoError, Config,
}
use recovery_guardian_contra.Prelude.Results.{err, ok, Result}

-- A caller keeps the attempt as it was when a move is refused.
abbrev pub after_move : Result VetoError Attempt → Attempt → Attempt
after_move (ok after) before = after
after_move (err _) before = before

unfoldable pub run_moves : Config → Attempt → List (Move × ℤ) → Attempt
run_moves config attempt [] = attempt
run_moves config attempt ((move, now) ∷ moves) =
    run_moves config (after_move (run_move move config attempt now) attempt) moves

-- No move of the list is an execution.
abbrev pub OnlyVetoes : List (Move × ℤ) → Type 0
OnlyVetoes [] = Unit {0}
OnlyVetoes ((move, now) ∷ moves) = (move ≢ executing) × OnlyVetoes moves

-- The clock reads less than `seconds` past `origin` at every move.
abbrev pub AllBefore : ℤ → ℕ → List (Move × ℤ) → Type 0
AllBefore origin seconds [] = Unit {0}
AllBefore origin seconds ((move, now) ∷ moves) =
    (monus now origin < seconds) × AllBefore origin seconds moves

module _ (config : Config) where
  not_executed_step :
      (move : Move) (attempt : Attempt) (now : ℤ)
      → move ≢ executing
      → attempt.state ≢ State.executed
      → (after_move (run_move move config attempt now) attempt).state ≢ State.executed
  unfolding run_move pause resume abort execute project
  not_executed_step pausing attempt now veto running = ground arith
  not_executed_step resuming attempt now veto running = ground arith
  not_executed_step aborting attempt now veto running = ground arith
  not_executed_step executing attempt now veto running = absurd (veto refl)

  -- No sequence of pauses, resumes and aborts, at any times, leads an attempt that is not executed
  -- to one that is.
  pub vetoes_never_execute :
      (attempt : Attempt) (moves : List (Move × ℤ))
      → OnlyVetoes moves
      → attempt.state ≢ State.executed
      → (run_moves config attempt moves).state ≢ State.executed
  unfolding run_moves
  vetoes_never_execute attempt [] only running = running
  vetoes_never_execute attempt ((move, now) ∷ moves) only running =
      vetoes_never_execute (after_move (run_move move config attempt now) attempt) moves only.1
        (not_executed_step move attempt now only.0 running)
