-- ===== src/Veto/Polling.antt =====
-- The loop of `project`, and readings of the clock one after the other.
use recovery_guardian_contra.Veto.Ticks.{
  ticks-add, ticks-stamped, project-eq-ticks, seconds_ahead, ticks,
}
use recovery_guardian_contra.Prelude.{
  inl, ◌+◌, inr, true, false, Bool-cases, ℕ, suc, ◌≡◌, ◌≤◌, some, arith,
}
use recovery_guardian_contra.Prelude.Int.{ℤ, monus, max_ℤ}
use recovery_guardian_contra.Prelude.Words.{i64_max}
use recovery_guardian_contra.Veto.Attempts.{project-IsValid, is_running, IsTimed, IsValid}
use recovery_guardian_contra.Veto.{
  attempt_or, ℤ, State, Config, Attempt, project, replay, replay_fuel,
}

-- The loop of `project` ends within the fuel given, for every configuration, attempt and time, and
-- any greater fuel gives the same result.
pub replay_total :
    (extra : ℕ) (config : Config) (attempt : Attempt) (remaining : ℕ)
    → (result : Attempt) × (replay replay_fuel config attempt remaining ≡ some result)
      × (replay (suc (suc (suc extra))) config attempt remaining ≡ some result)
unfolding replay
replay_total extra config attempt remaining =
    (attempt_or (replay replay_fuel config attempt remaining) attempt, ground arith, ground arith)

abbrev pub progress : Attempt → State × ℕ × ℕ
progress attempt = (attempt.state, attempt.accrued_seconds, attempt.paused_seconds)

-- The fields other than the checkpoint follow from the seconds alone.
progress-project :
    (config : Config) (attempt : Attempt) (now : ℤ)
    → IsTimed config
    → IsValid config attempt
    → progress (project config attempt now)
      ≡ progress (ticks config (seconds_ahead attempt now) attempt)
progress-project config attempt now timed valid = ground (
  arith,
  project-eq-ticks config attempt now timed valid,
  ticks-stamped config (seconds_ahead attempt now) attempt (max_ℤ attempt.checkpoint_time now),
)

project_idle :
    (config : Config) (attempt : Attempt) (now : ℤ)
    → is_running attempt.state ≡ false
    → project config attempt now ≡ attempt
unfolding project
project_idle config attempt now idle = ground arith

module _ (config : Config) (attempt : Attempt) (t u : ℤ) where
  seconds_add :
      monus (max_ℤ t u) attempt.checkpoint_time ≤ i64_max
      → seconds_ahead attempt t
          + seconds_ahead (record attempt { checkpoint_time = max_ℤ attempt.checkpoint_time t }) u
        ≡ seconds_ahead attempt (max_ℤ t u)
  seconds_add h = ground arith

  module _ (timed : IsTimed config) (valid : IsValid config attempt) where
    project_running :
        is_running attempt.state ≡ true
        → project config attempt t ≡ record (ticks config (seconds_ahead attempt t) attempt) {
          checkpoint_time = max_ℤ attempt.checkpoint_time t;
        }
    project_running running = ground (
      arith,
      project-eq-ticks config attempt t timed valid,
      ticks-stamped config (seconds_ahead attempt t) attempt (max_ℤ attempt.checkpoint_time t),
    )

    -- For a timed configuration, a valid attempt and two clock readings at most an `i64` after its
    -- checkpoint: reading at one and then at the other gives the state and the seconds that one
    -- reading at the later does.
    pub project-project :
        monus (max_ℤ t u) attempt.checkpoint_time ≤ i64_max
        → progress (project config (project config attempt t) u)
          ≡ progress (project config attempt (max_ℤ t u))
    project-project h = elim (Bool-cases (is_running attempt.state)) [
      | inr idle ↦ rw (project_idle config attempt t idle) (
          rw (project_idle config attempt u idle)
            (rw (project_idle config attempt (max_ℤ t u) idle)))
      | inl running ↦
          let first = seconds_ahead attempt t in
          let second =
            seconds_ahead (record attempt { checkpoint_time = max_ℤ attempt.checkpoint_time t })
              u in
          rw
            (progress-project config (project config attempt t) u timed
              (project-IsValid config attempt t timed valid))
            (rw (progress-project config attempt (max_ℤ t u) timed valid) (
              rw (project_running running) (
                rw
                  (ticks-stamped config second (ticks config first attempt)
                    (max_ℤ attempt.checkpoint_time t))
                  (rw (← ticks-add config first second attempt) (rw (seconds_add h))))))
    ]
