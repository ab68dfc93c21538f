-- ===== src/Veto/Accounting.antt =====
-- How the seconds since the start of an attempt are spent, over every sequence of moves.
use recovery_guardian_contra.Veto.Traces.{AllBefore, run_moves, after_move}
use recovery_guardian_contra.Prelude.Words.{i64_max}
use recovery_guardian_contra.Veto.Attempts.{
  start-IsValid, execute-IsValid, abort-IsValid, resume-IsValid, pause-IsValid, project-IsValid,
  IsValid, is_running, IsTimed,
}
use recovery_guardian_contra.Veto.Transitions.{
  aborting, resuming, pausing, executing, run_move, Move,
}
use recovery_guardian_contra.Prelude.Int.{monus, ◌≤ℤ◌, ℤ}
use recovery_guardian_contra.Prelude.{◌⊎◌, ◌<◌, [], ◌∷◌, true, arith, ◌≡◌, ◌≤◌, ◌+◌, ◌≢◌, ℕ, List}
use recovery_guardian_contra.Veto.{
  is_terminal, start, execute, abort, State, resume, project, pause, Attempt, Config,
}

-- Every second since `origin` up to the checkpoint is accounted for at most once, and while the clock
-- runs, exactly once.
pub record IsAccounted (config : Config) (origin : ℤ) (attempt : Attempt) : Type 0 where
  pub begun : attempt.state ≢ State.none
  pub since : origin ≤ℤ attempt.checkpoint_time
  pub at_most :
      attempt.accrued_seconds + attempt.paused_seconds ≤ monus attempt.checkpoint_time origin
  pub exactly :
      is_running attempt.state ≡ true
      → attempt.accrued_seconds + attempt.paused_seconds ≡ monus attempt.checkpoint_time origin
  pub served : attempt.state ≡ State.executed → attempt.accrued_seconds ≡ config.timelock_seconds

-- A running clock has been brought up to the time at which it is read.
project_reaches :
    (config : Config) (attempt : Attempt) (now : ℤ)
    → is_running (project config attempt now).state ≡ true
    → now ≤ℤ (project config attempt now).checkpoint_time
unfolding project
project_reaches config attempt now running = ground arith

-- Reading the clock moves the checkpoint to the time of the reading, or leaves it.
project-checkpoint_time :
    (config : Config) (attempt : Attempt) (now : ℤ)
    → let reached = (project config attempt now).checkpoint_time in
      (reached ≡ attempt.checkpoint_time) ⊎ (reached ≡ now)
unfolding project
project-checkpoint_time config attempt now = ground arith

module _ (config : Config) (origin : ℤ) (timed : IsTimed config) where
  project-IsAccounted :
      (attempt : Attempt) (now : ℤ)
      → monus now origin ≤ i64_max
      → IsValid config attempt
      → IsAccounted config origin attempt
      → IsAccounted config origin (project config attempt now)
  unfolding project
  project-IsAccounted attempt now near valid done = ground arith

  pub move-IsAccounted :
      (move : Move) (attempt : Attempt) (now : ℤ)
      → monus now origin ≤ i64_max
      → IsValid config attempt
      → IsAccounted config origin attempt
      → IsAccounted config origin (after_move (run_move move config attempt now) attempt)
  unfolding run_move pause resume abort execute
  move-IsAccounted pausing attempt now near valid done = ground (
    arith,
    project-IsAccounted attempt now near valid done,
    project-IsValid config attempt now timed valid,
  )
  move-IsAccounted move attempt now near valid done = ground (
    arith,
    project-IsAccounted attempt now near valid done,
    project-IsValid config attempt now timed valid,
  )

  pub move-IsValid :
      (move : Move) (attempt : Attempt) (now : ℤ)
      → IsValid config attempt
      → IsValid config (after_move (run_move move config attempt now) attempt)
  unfolding run_move
  move-IsValid pausing attempt now valid =
      ground (arith, pause-IsValid config attempt now timed valid)
  move-IsValid resuming attempt now valid =
      ground (arith, resume-IsValid config attempt now timed valid)
  move-IsValid aborting attempt now valid =
      ground (arith, abort-IsValid config attempt now timed valid)
  move-IsValid executing attempt now valid =
      ground (arith, execute-IsValid config attempt now timed valid)

  -- What a whole sequence of moves keeps.
  moves_keep :
      (attempt : Attempt) (moves : List (Move × ℤ))
      → AllBefore origin (i64_max + 1) moves
      → IsValid config attempt
      → IsAccounted config origin attempt
      → let after = run_moves config attempt moves in
        IsValid config after × IsAccounted config origin after
  unfolding run_moves
  moves_keep attempt [] near valid done = (valid, done)
  moves_keep attempt ((move, now) ∷ moves) near valid done =
      moves_keep (after_move (run_move move config attempt now) attempt) moves near.1
        (move-IsValid move attempt now valid)
        (move-IsAccounted move attempt now (omega arith) valid done)

  pub start-IsAccounted : (attempt : Attempt) → IsAccounted config origin (start attempt origin)
  unfolding start
  start-IsAccounted attempt = ground arith

  move_before :
      (move : Move) (attempt : Attempt) (now : ℤ) (seconds : ℕ)
      → monus now origin < seconds
      → monus attempt.checkpoint_time origin < seconds
      → monus (after_move (run_move move config attempt now) attempt).checkpoint_time origin
        < seconds
  unfolding run_move pause resume abort execute
  move_before pausing attempt now seconds before h =
      ground (arith, project-checkpoint_time config attempt now)
  move_before move attempt now seconds before h =
      ground (arith, project-checkpoint_time config attempt now)

  checkpoint_before :
      (attempt : Attempt) (moves : List (Move × ℤ)) (seconds : ℕ)
      → AllBefore origin seconds moves
      → monus attempt.checkpoint_time origin < seconds
      → monus (run_moves config attempt moves).checkpoint_time origin < seconds
  unfolding run_moves
  checkpoint_before attempt [] seconds before h = h
  checkpoint_before attempt ((move, now) ∷ moves) seconds before h =
      checkpoint_before (after_move (run_move move config attempt now) attempt) moves seconds
        before.1 (move_before move attempt now seconds before.0 h)

  -- Once the timelock and the pause budget have passed, nothing is left to wait for.
  pub accounted_matures :
      (attempt : Attempt) (now : ℤ)
      → monus now origin ≤ i64_max
      → IsValid config attempt
      → IsAccounted config origin attempt
      → config.timelock_seconds + config.pause_ceiling_seconds ≤ monus now origin
      → let reached = (project config attempt now).state in
        (reached ≡ State.executable) ⊎ (is_terminal reached ≡ true)
  unfolding is_terminal
  accounted_matures attempt now close valid done late = ground (
    arith,
    project-IsValid config attempt now timed valid,
    project-IsAccounted attempt now close valid done,
    project_reaches config attempt now,
  )

  module _ (attempt : Attempt) (moves : List (Move × ℤ)) where
    -- What a started attempt has become after the moves.
    abbrev pub started_then : Attempt
    started_then = run_moves config (start attempt origin) moves

    started_keep :
        AllBefore origin (i64_max + 1) moves
        → IsValid config started_then × IsAccounted config origin started_then
    started_keep near =
        moves_keep (start attempt origin) moves near (start-IsValid config attempt origin timed)
          (start-IsAccounted attempt)

    -- For a timed configuration, take an attempt that was started at `origin` and any moves, each
    -- within an `i64` of the start. Projected to a time at which the timelock and the whole pause
    -- budget have passed since the start, the attempt is executable or over.
    pub pauses_cannot_outlast :
        (now : ℤ)
        → AllBefore origin (i64_max + 1) moves
        → monus now origin ≤ i64_max
        → config.timelock_seconds + config.pause_ceiling_seconds ≤ monus now origin
        → let reached = (project config started_then now).state in
          (reached ≡ State.executable) ⊎ (is_terminal reached ≡ true)
    pauses_cannot_outlast now near close late =
        let (valid, done) = started_keep near in
        accounted_matures started_then now close valid done late

    -- For a timed configuration, take an attempt that was started at `origin` and any moves by
    -- anybody, each before the timelock has passed since then and within an `i64` of it. After them
    -- the attempt is neither executable nor executed.
    pub no_early_execution :
        AllBefore origin (i64_max + 1) moves
        → AllBefore origin config.timelock_seconds moves
        → (started_then.state ≢ State.executable) × (started_then.state ≢ State.executed)
    unfolding start
    no_early_execution near early =
        let (valid, done) = started_keep near in
        ground (arith, checkpoint_before (start attempt origin) moves config.timelock_seconds early)
