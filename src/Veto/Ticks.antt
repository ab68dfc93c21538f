-- ===== src/Veto/Ticks.antt =====
-- A specification of `project`: one second of the clock at a time.
use native.Mathlib.Nat.{zero-add, suc-add}
use recovery_guardian_contra.Prelude.{
  false, ℕ, zero, suc, ◌+◌, ◌-◌, ◌<◌, ◌≡◌, refl, min, some, arith, ltb, if◌then◌else◌,
}
use recovery_guardian_contra.Prelude.Int.{ℤ, max_ℤ, monus}
use recovery_guardian_contra.Prelude.Words.{i64_max}
use recovery_guardian_contra.Veto.Attempts.{is_running, IsTimed, IsValid}
use recovery_guardian_contra.Veto.{State, Config, Attempt, replay_fuel, replay, project}

-- What one passing second does to an attempt. It knows nothing of checkpoints, of batches of seconds
-- or of machine words: a pause ends in the second that spends its budget, and a timelock matures in
-- the second that completes it.
pub tick_state : State → Config → Attempt → Attempt
tick_state State.paused config attempt =
    if ltb (attempt.paused_seconds + 1) config.pause_ceiling_seconds
    then record attempt { paused_seconds = attempt.paused_seconds + 1 }
    else record attempt { state = State.initiated; paused_seconds = config.pause_ceiling_seconds }
tick_state State.initiated config attempt =
    if ltb (attempt.accrued_seconds + 1) config.timelock_seconds
    then record attempt { accrued_seconds = attempt.accrued_seconds + 1 }
    else record attempt { state = State.executable; accrued_seconds = config.timelock_seconds }
tick_state _ config attempt = attempt

pub tick : Config → Attempt → Attempt
unfolding tick_state
tick config attempt = tick_state attempt.state config attempt

pub ticks : Config → ℕ → Attempt → Attempt
ticks config zero attempt = attempt
ticks config (suc n) attempt = ticks config n (tick config attempt)

abbrev clocked : State → ℕ → ℕ → ℤ → Attempt
clocked state accrued spent checkpoint = record {
  state = state;
  accrued_seconds = accrued;
  paused_seconds = spent;
  checkpoint_time = checkpoint;
}

module _ (config : Config) where
  tick_idle :
      (state : State) (a p : ℕ) (t : ℤ)
      → is_running state ≡ false
      → tick config (clocked state a p t) ≡ clocked state a p t
  unfolding tick
  tick_idle state a p t idle = ground arith

  -- Once matured, or over, the passing of time changes nothing.
  ticks_idle :
      (n : ℕ) (state : State) (a p : ℕ) (t : ℤ)
      → is_running state ≡ false
      → ticks config n (clocked state a p t) ≡ clocked state a p t
  unfolding ticks
  ticks_idle zero state a p t idle = refl
  ticks_idle (suc n) state a p t idle =
      rw (tick_idle state a p t idle) (ticks_idle n state a p t idle)

  -- Seconds below the remaining timelock only accrue; the others mature it.
  ticks_initiated :
      (n a p : ℕ) (t : ℤ)
      → a < config.timelock_seconds
      → ticks config n (clocked State.initiated a p t) ≡ (
          if ltb (a + n) config.timelock_seconds
          then clocked State.initiated (a + n) p t
          else clocked State.executable config.timelock_seconds p t)
  unfolding ticks tick
  ticks_initiated zero a p t k = ground arith
  ticks_initiated (suc n) a p t k = ground (
    arith,
    ticks_initiated n (a + 1) p t,
    ticks_idle n State.executable config.timelock_seconds p t refl,
  )

  -- Seconds below the remaining budget only use it up; the others accrue.
  ticks_paused :
      (n a p : ℕ) (t : ℤ)
      → p < config.pause_ceiling_seconds
      → ticks config n (clocked State.paused a p t) ≡ (
          if ltb (p + n) config.pause_ceiling_seconds
          then clocked State.paused a (p + n) t
          else ticks config
              (p + n - config.pause_ceiling_seconds)
              (clocked State.initiated a config.pause_ceiling_seconds t))
  unfolding ticks tick
  ticks_paused zero a p t k = ground arith
  ticks_paused (suc n) a p t k = ground (arith, ticks_paused n a (p + 1) t)

  module _ (timed : IsTimed config) where
    replay-ticks_at :
        (state : State) (a p n : ℕ) (t : ℤ)
        → IsValid config (clocked state a p t)
        → replay replay_fuel config (clocked state a p t) n
          ≡ some (ticks config n (clocked state a p t))
    unfolding replay
    replay-ticks_at State.paused a p n t valid = ground (
      arith,
      ticks_paused n a p t,
      ticks_initiated (p + n - config.pause_ceiling_seconds) a config.pause_ceiling_seconds t,
    )
    replay-ticks_at State.initiated a p n t valid = ground (arith, ticks_initiated n a p t)
    replay-ticks_at state a p n t valid = ground (arith, ticks_idle n state a p t)

  -- Seconds pass alike at every checkpoint, and leave it alone.
  tick-stamped :
      (attempt : Attempt) (t : ℤ)
      → tick config (record attempt { checkpoint_time = t })
        ≡ record (tick config attempt) { checkpoint_time = t }
  unfolding tick
  tick-stamped attempt t = ground arith

  pub ticks-stamped :
      (n : ℕ) (attempt : Attempt) (t : ℤ)
      → ticks config n (record attempt { checkpoint_time = t })
        ≡ record (ticks config n attempt) { checkpoint_time = t }
  unfolding ticks
  ticks-stamped zero attempt t = refl
  ticks-stamped (suc n) attempt t =
      rw (tick-stamped attempt t) (ticks-stamped n (tick config attempt) t)

  pub ticks-add :
      (m n : ℕ) (attempt : Attempt)
      → ticks config (m + n) attempt ≡ ticks config n (ticks config m attempt)
  unfolding ticks
  ticks-add zero n attempt = rw zero-add
  ticks-add (suc m) n attempt = rw suc-add (ticks-add m n (tick config attempt))

-- The seconds that `project` replays: how far `now` lies ahead of the checkpoint, and at most
-- the greatest `i64`.
abbrev pub seconds_ahead : Attempt → ℤ → ℕ
seconds_ahead attempt now = min (monus now attempt.checkpoint_time) i64_max

-- The attempt with the checkpoint that `project` leaves: it moves forwards only, and only while the
-- clock runs.
abbrev pub moved_to : Attempt → ℤ → Attempt
moved_to attempt now =
    if is_running attempt.state
    then record attempt { checkpoint_time = max_ℤ attempt.checkpoint_time now }
    else attempt

-- For durations that are positive and fit a `u64`, and an attempt that satisfies the invariant,
-- `project` does in closed form what letting seconds pass one by one does: as many as the clock is
-- ahead of the checkpoint, none where it is behind, and at most the greatest `i64`. The checkpoint
-- of a running attempt becomes the later of itself and the clock.
pub project-eq-ticks :
    (config : Config) (attempt : Attempt) (now : ℤ)
    → IsTimed config
    → IsValid config attempt
    → project config attempt now ≡ ticks config (seconds_ahead attempt now) (moved_to attempt now)
unfolding replay project
project-eq-ticks config attempt now timed valid = ground (
  arith,
  replay-ticks_at config timed attempt.state attempt.accrued_seconds attempt.paused_seconds
      (seconds_ahead attempt now) (max_ℤ attempt.checkpoint_time now),
  ticks_idle config (seconds_ahead attempt now) attempt.state attempt.accrued_seconds
      attempt.paused_seconds attempt.checkpoint_time,
)
