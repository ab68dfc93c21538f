-- ===== src/Evm/GradualVeto/Elapsed.antt =====
-- The seconds that an attempt has accrued have passed since it started.
use recovery_guardian_contra.Prelude.{ℕ, ◌≡◌, ◌≤◌, ◌+◌, ◌⊎◌, arith, false}
use recovery_guardian_contra.Prelude.Words.{u64_max}
use recovery_guardian_contra.Prelude.Results.{ok, ok_injective, >>=-eq-ok}
use recovery_guardian_contra.Evm.GradualVeto.{
  Config, Attempt, State, project, settle, start, pause, resume, abort, execute, state_eq,
}

-- The attempt started at `since`, its calls were at times up to `until`, and it is executable only with
-- the timelock accrued.
pub record HasElapsed (since until : ℕ) (config : Config) (attempt : Attempt) : Type 0 where
  pub elapsed : since + attempt.accrued_seconds ≤ attempt.checkpoint_time
  pub past : attempt.checkpoint_time ≤ until
  pub mature :
      (state_eq attempt.state State.executable ≡ false)
      ⊎ (attempt.accrued_seconds ≡ config.timelock_seconds)

module _ (since until : ℕ) (config : Config) (word : until ≤ u64_max) (timestamp : ℕ)
    (within : timestamp ≤ until) where
  pub project-HasElapsed :
      (attempt : Attempt) {after : Attempt}
      → HasElapsed since until config attempt
      → project config attempt timestamp ≡ ok after
      → HasElapsed since until config after
  unfolding project
  project-HasElapsed attempt elapsed h = ground arith

  settle-HasElapsed :
      (attempt : Attempt) {after : Attempt}
      → HasElapsed since until config attempt
      → settle config attempt timestamp ≡ ok after
      → HasElapsed since until config after
  unfolding settle
  settle-HasElapsed attempt elapsed h =
      let (reached, ran, done) = >>=-eq-ok (project config attempt timestamp) _ h in
      rw (← ok_injective done) (project-HasElapsed attempt elapsed ran)

  pub start-HasElapsed :
      (attempt : Attempt)
      → since ≡ timestamp
      → HasElapsed since until config (start attempt timestamp)
  unfolding start state_eq
  start-HasElapsed attempt e = ground arith

  pub pause-HasElapsed :
      (attempt : Attempt) {after : Attempt}
      → HasElapsed since until config attempt
      → pause config attempt timestamp ≡ ok after
      → HasElapsed since until config after
  unfolding pause state_eq
  pause-HasElapsed attempt elapsed h =
      let (settled, ran, checked) = >>=-eq-ok (settle config attempt timestamp) _ h in
      let held = settle-HasElapsed attempt elapsed ran in ground (arith, held, checked)

  pub resume-HasElapsed :
      (attempt : Attempt) {after : Attempt}
      → HasElapsed since until config attempt
      → resume config attempt timestamp ≡ ok after
      → HasElapsed since until config after
  unfolding resume state_eq
  resume-HasElapsed attempt elapsed h =
      let (settled, ran, checked) = >>=-eq-ok (settle config attempt timestamp) _ h in
      let held = settle-HasElapsed attempt elapsed ran in ground (arith, held, checked)

  pub abort-HasElapsed :
      (attempt : Attempt) {after : Attempt}
      → HasElapsed since until config attempt
      → abort config attempt timestamp ≡ ok after
      → HasElapsed since until config after
  unfolding abort state_eq
  abort-HasElapsed attempt elapsed h =
      let (settled, ran, checked) = >>=-eq-ok (settle config attempt timestamp) _ h in
      let held = settle-HasElapsed attempt elapsed ran in ground (arith, held, checked)

  pub execute-HasElapsed :
      (attempt : Attempt) {after : Attempt}
      → HasElapsed since until config attempt
      → execute config attempt timestamp ≡ ok after
      → HasElapsed since until config after
  unfolding execute state_eq
  execute-HasElapsed attempt elapsed h =
      let (settled, ran, checked) = >>=-eq-ok (settle config attempt timestamp) _ h in
      let held = settle-HasElapsed attempt elapsed ran in ground (arith, held, checked)
