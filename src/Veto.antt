-- ===== src/Veto.antt =====
-- The veto state machine of one recovery attempt: solana/crates/gradual-veto/src/lib.rs.
-- `&mut Attempt` is state passing: a transition returns the new attempt or the error. On an error the
-- source leaves the settled attempt behind; every caller drops it, so it is not returned here.
pub mod Ticks
pub mod Polling
pub mod Attempts
pub mod Transitions
pub mod Traces
pub mod Accounting
mod Tests
use recovery_guardian_contra.Prelude.{
  ℕ, zero, suc, Bool, true, false, not, ◌||◌, Option, some, List, [], ◌∷◌, Bytes, bytes_eq,
  contains, length, replicate, ltb, leb, ◌==◌, if◌then◌else◌,
}
use recovery_guardian_contra.Prelude.Int.{ℤ, pos, negsuc, ltb_ℤ, i64_saturating_sub}
use recovery_guardian_contra.Prelude.Words.{u64_saturating_add, u64_saturating_sub}
use recovery_guardian_contra.Prelude.Results.{Result, ok, err}

-- `[u8; 32]`
abbrev pub Address : Type 0
Address = Bytes

pub data State : Type 0 where
  none initiated paused executable executed aborted : State

-- The pinned discriminants, which `State::ordinal` returns.
unfoldable pub ordinal : State → ℕ
ordinal State.none = 0
ordinal State.initiated = 1
ordinal State.paused = 2
ordinal State.executable = 3
ordinal State.executed = 4
ordinal State.aborted = 5

unfoldable pub from_ordinal : ℕ → Option State
from_ordinal n =
    if n == 0
    then some State.none
    else if n == 1
    then some State.initiated
    else if n == 2
    then some State.paused
    else if n == 3
    then some State.executable
    else if n == 4
    then some State.executed
    else if n == 5
    then some State.aborted
    else Option.none

-- The derived `==` of a fieldless enum.
unfoldable pub state_eq : State → State → Bool
unfolding ordinal
state_eq a b = ordinal a == ordinal b

abbrev pub max_resume_members : ℕ
max_resume_members = 8

pub record Config : Type 0 where
  pub pause_authority : Address
  pub abort_authority : Address
  pub resume_members : List Address
  pub resume_threshold : ℕ  -- u8
  pub timelock_seconds : ℕ  -- u64
  pub pause_ceiling_seconds : ℕ  -- u64

pub record Attempt : Type 0 where
  pub state : State
  pub accrued_seconds : ℕ  -- u64
  pub paused_seconds : ℕ  -- u64
  pub checkpoint_time : ℤ  -- i64

-- `Attempt::default()`
unfoldable pub default_attempt : Attempt
default_attempt = record {
  state = State.none;
  accrued_seconds = 0;
  paused_seconds = 0;
  checkpoint_time = pos 0;
}

pub data VetoError : Type 0 where
  not_initiated not_paused not_executable already_terminal pause_budget_exhausted : VetoError
  pause_authority_is_zero abort_authority_is_zero resume_quorum_is_empty : VetoError
  resume_threshold_is_zero resume_threshold_exceeds_membership timelock_is_zero : VetoError
  pause_ceiling_is_zero pause_and_abort_held_by_one_party : VetoError
  pause_and_resume_held_by_one_party resume_and_abort_held_by_one_party : VetoError
  resume_quorum_contains_zero_address resume_quorum_contains_duplicate : VetoError
  too_many_resume_members : VetoError

unfoldable pub is_terminal : State → Bool
is_terminal State.executed = true
is_terminal State.aborted = true
is_terminal _ = false

unfoldable pub is_resume_member : Config → Address → Bool
is_resume_member config candidate = contains config.resume_members candidate

-- The `while` loop of `project`, on fuel; `none` means that the fuel ran out.
unfoldable pub replay : ℕ → Config → Attempt → ℕ → Option Attempt
replay zero config attempt remaining = Option.none
replay (suc fuel) config attempt remaining = elim (ltb 0 remaining) [
  | false ↦ some attempt
  | true ↦ elim attempt.state [
    | State.paused ↦
        let until_ceiling =
          u64_saturating_sub config.pause_ceiling_seconds attempt.paused_seconds in
        elim (ltb remaining until_ceiling) [
          | true ↦ some (record attempt {
            paused_seconds = u64_saturating_add attempt.paused_seconds remaining;
          })
          | false ↦
              replay fuel config
                (record attempt {
                  state = State.initiated;
                  paused_seconds = config.pause_ceiling_seconds;
                })
                (u64_saturating_sub remaining until_ceiling)
        ]
    | State.initiated ↦
        let until_mature = u64_saturating_sub config.timelock_seconds attempt.accrued_seconds in
        elim (ltb remaining until_mature) [
          | true ↦ some (record attempt {
            accrued_seconds = u64_saturating_add attempt.accrued_seconds remaining;
          })
          | false ↦ some (record attempt {
            state = State.executable;
            accrued_seconds = config.timelock_seconds;
          })
        ]
    | _ ↦ some attempt
  ]
]

-- `if elapsed > 0 { elapsed as u64 } else { 0 }` for the saturated difference of the clocks.
unfoldable pub elapsed_since : ℤ → ℤ → ℕ
elapsed_since checkpoint now = elim (i64_saturating_sub now checkpoint) [ pos n ↦ n | negsuc n ↦ 0 ]

-- One round each for a pause that ends, for the timelock, and to find nothing left to do.
abbrev pub replay_fuel : ℕ
replay_fuel = 3

abbrev pub attempt_or : Option Attempt → Attempt → Attempt
attempt_or Option.none fallback = fallback
attempt_or (some attempt) fallback = attempt

unfoldable pub project : Config → Attempt → ℤ → Attempt
unfolding state_eq is_terminal elapsed_since replay
project config attempt now =
    if state_eq attempt.state State.none
      || is_terminal attempt.state
      || state_eq attempt.state State.executable
    then attempt
    else let remaining = elapsed_since attempt.checkpoint_time now in
      let moved = if ltb_ℤ attempt.checkpoint_time now then now else attempt.checkpoint_time in
      attempt_or (replay replay_fuel config (record attempt { checkpoint_time = moved }) remaining)
        attempt

unfoldable pub settle : Config → Attempt → ℤ → Attempt
settle config attempt now = project config attempt now

unfoldable pub start : Attempt → ℤ → Attempt
start attempt now = record attempt {
  state = State.initiated;
  accrued_seconds = 0;
  paused_seconds = 0;
  checkpoint_time = now;
}

-- The type of a transition, as `apply` of the vault program takes one.
abbrev pub Transition : Type 0
Transition = Config → Attempt → ℤ → Result VetoError Attempt

unfoldable pub pause : Transition
unfolding settle state_eq is_terminal
pause config attempt now =
    let settled = settle config attempt now in
    if is_terminal settled.state
    then err already_terminal
    else if not (state_eq settled.state State.initiated)
    then err not_initiated
    else if leb config.pause_ceiling_seconds settled.paused_seconds
    then err pause_budget_exhausted
    else ok (record settled { state = State.paused })

unfoldable pub resume : Transition
unfolding settle state_eq is_terminal
resume config attempt now =
    let settled = settle config attempt now in
    if is_terminal settled.state
    then err already_terminal
    else if not (state_eq settled.state State.paused)
    then err not_paused
    else ok (record settled { state = State.initiated })

unfoldable pub abort : Transition
unfolding settle state_eq is_terminal
abort config attempt now =
    let settled = settle config attempt now in
    if state_eq settled.state State.none
    then err not_initiated
    else if is_terminal settled.state
    then err already_terminal
    else ok (record settled { state = State.aborted })

unfoldable pub execute : Transition
unfolding settle state_eq is_terminal
execute config attempt now =
    let settled = settle config attempt now in
    if not (state_eq settled.state State.executable)
    then err not_executable
    else ok (record settled { state = State.executed })
