-- ===== src/Veto/Attempts.antt =====
-- The invariant of an attempt's clock under `project` and the transitions of the veto machine.
use recovery_guardian_contra.Prelude.{◌≤◌, ◌<◌, ◌≡◌, Bool, true, false, arith}
use recovery_guardian_contra.Prelude.Int.{ℤ}
use recovery_guardian_contra.Prelude.Words.{u64_max}
use recovery_guardian_contra.Prelude.Results.{Result, ok, err}
use recovery_guardian_contra.Veto.{
  State, Config, Attempt, project, start, pause, resume, abort, execute,
}

-- The clock of an attempt in this state runs.
abbrev pub is_running : State → Bool
is_running State.initiated = true
is_running State.paused = true
is_running _ = false

-- Both intervals are positive 64-bit words, as `validate` and the account's layout leave them.
pub record IsTimed (config : Config) : Type 0 where
  pub timelock_pos : 0 < config.timelock_seconds
  pub ceiling_pos : 0 < config.pause_ceiling_seconds
  pub timelock_word : config.timelock_seconds ≤ u64_max
  pub ceiling_word : config.pause_ceiling_seconds ≤ u64_max

-- A running attempt has not matured, a paused one has budget left, none has used more than its
-- budget, and an executable one has served the whole timelock.
pub record IsValid (config : Config) (attempt : Attempt) : Type 0 where
  pub immature : is_running attempt.state ≡ true → attempt.accrued_seconds < config.timelock_seconds
  pub budget_left :
      attempt.state ≡ State.paused → attempt.paused_seconds < config.pause_ceiling_seconds
  pub budget_capped :
      is_running attempt.state ≡ true → attempt.paused_seconds ≤ config.pause_ceiling_seconds
  pub matured : attempt.state ≡ State.executable → attempt.accrued_seconds ≡ config.timelock_seconds
  pub budget_spent :
      attempt.state ≡ State.executable → attempt.paused_seconds ≤ config.pause_ceiling_seconds

-- Any reading of the clock, backwards ones included, keeps the invariant.
pub project-IsValid :
    (config : Config) (attempt : Attempt) (now : ℤ)
    → IsTimed config
    → IsValid config attempt
    → IsValid config (project config attempt now)
unfolding project
project-IsValid config attempt now timed valid = ground arith

-- What a transition promises of its result.
abbrev pub Ensures {ℓ} : {A : Type 0} → (Attempt → Type ℓ) → Result A Attempt → Type ℓ
Ensures P (ok attempt) = P attempt
Ensures P (err _) = Unit

module _ (config : Config) (attempt : Attempt) (now : ℤ) (timed : IsTimed config) where
  -- A started attempt satisfies the invariant, whatever was there before.
  pub start-IsValid : IsValid config (start attempt now)
  unfolding start
  start-IsValid = ground arith

  module _ (valid : IsValid config attempt) where
    pub pause-IsValid : Ensures (IsValid config) (pause config attempt now)
    unfolding pause
    pause-IsValid = ground (arith, project-IsValid config attempt now timed valid)

    pub resume-IsValid : Ensures (IsValid config) (resume config attempt now)
    unfolding resume
    resume-IsValid = ground (arith, project-IsValid config attempt now timed valid)

    pub abort-IsValid : Ensures (IsValid config) (abort config attempt now)
    unfolding abort
    abort-IsValid = ground (arith, project-IsValid config attempt now timed valid)

    pub execute-IsValid : Ensures (IsValid config) (execute config attempt now)
    unfolding execute
    execute-IsValid = ground (arith, project-IsValid config attempt now timed valid)
