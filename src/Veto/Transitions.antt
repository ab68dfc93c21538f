-- ===== src/Veto/Transitions.antt =====
-- The four transitions of the veto machine as moves of one diagram.
use recovery_guardian_contra.Prelude.{true, false, ◌≢◌, arith, ◌<◌, ◌↔◌, ◌≡◌}
use recovery_guardian_contra.Prelude.Results.{err, ok, IsOk}
use recovery_guardian_contra.Prelude.Int.{ℤ}
use recovery_guardian_contra.Veto.{
  already_terminal, is_terminal, project, execute, abort, Attempt, resume, Config, pause, State,
  Transition,
}

-- What can be asked of an attempt.
pub data Move : Type 0 where
  pausing resuming aborting executing : Move

unfoldable pub run_move : Move → Transition
run_move pausing = pause
run_move resuming = resume
run_move aborting = abort
run_move executing = execute

-- The diagram, over the state that the clock has reached.
pub data Edge : Move → State → State → Type 0 where
  slow : Edge pausing State.initiated State.paused
  lift : Edge resuming State.paused State.initiated
  stop_initiated : Edge aborting State.initiated State.aborted
  stop_paused : Edge aborting State.paused State.aborted
  stop_executable : Edge aborting State.executable State.aborted
  finish : Edge executing State.executable State.executed

ruleset edges = (slow, lift, stop_initiated, stop_paused, stop_executable, finish)

-- A transition that succeeds takes one edge of the state machine from the projected state, and
-- leaves the seconds and the checkpoint as projected.
pub run_move-Edge :
    (move : Move) (config : Config) (attempt : Attempt) (now : ℤ) {after : Attempt}
    → run_move move config attempt now ≡ ok after
    → let before = project config attempt now in
      Edge move before.state after.state
      × (after.accrued_seconds ≡ before.accrued_seconds)
      × (after.paused_seconds ≡ before.paused_seconds)
      × (after.checkpoint_time ≡ before.checkpoint_time)
unfolding run_move pause resume abort execute
run_move-Edge move config attempt now granted = grind (arith, edges)

-- When a move is granted, as a condition on the projected attempt.
abbrev pub MayMove : Move → Config → Attempt → Type 0
MayMove pausing config attempt =
    (attempt.state ≡ State.initiated) × (attempt.paused_seconds < config.pause_ceiling_seconds)
MayMove resuming config attempt = attempt.state ≡ State.paused
MayMove aborting config attempt = (attempt.state ≢ State.none) × (is_terminal attempt.state ≡ false)
MayMove executing config attempt = attempt.state ≡ State.executable

-- A transition succeeds exactly when the projected attempt allows it: a pause when it is initiated
-- with pause budget left, a resume when it is paused, an abort when it is open, an execution when
-- it is executable.
pub run_move_iff :
    (move : Move) (config : Config) (attempt : Attempt) (now : ℤ)
    → IsOk (run_move move config attempt now) ↔ MayMove move config (project config attempt now)
unfolding run_move pause resume abort execute
run_move_iff pausing config attempt now = (
  λ granted. ground arith,
  λ may. (record (project config attempt now) { state = State.paused }, ground arith),
)
run_move_iff resuming config attempt now = (
  λ granted. ground arith,
  λ may. (record (project config attempt now) { state = State.initiated }, ground arith),
)
run_move_iff aborting config attempt now = (
  λ granted. ground arith,
  λ may. (record (project config attempt now) { state = State.aborted }, ground arith),
)
run_move_iff executing config attempt now = (
  λ granted. ground arith,
  λ may. (record (project config attempt now) { state = State.executed }, ground arith),
)

-- A transition is refused as already terminal exactly when it is not an execution and the stored
-- attempt is over.
pub already_terminal_iff :
    (move : Move) (config : Config) (attempt : Attempt) (now : ℤ)
    → (run_move move config attempt now ≡ err already_terminal)
      ↔ ((move ≢ executing) × (is_terminal attempt.state ≡ true))
unfolding run_move pause resume abort execute project
already_terminal_iff pausing config attempt now = ground arith
already_terminal_iff resuming config attempt now = ground arith
already_terminal_iff aborting config attempt now = ground arith
already_terminal_iff executing config attempt now = ground arith
