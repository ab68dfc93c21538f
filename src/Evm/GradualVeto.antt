-- ===== src/Evm/GradualVeto.antt =====
-- The veto state machine in Solidity: evm/src/GradualVeto.sol.
-- Arithmetic on `uint64` is checked: it reverts where the result does not fit. An attempt in storage is
-- state passing, and a revert is an error, since it undoes what the call wrote.
pub mod Translation
pub mod Bounds
pub mod Elapsed
pub mod Matured
pub mod Agreement
pub mod Differential
pub mod Backwards
pub mod Validation
use Prim.Native.String.{String}
use recovery_guardian_contra.Prelude.{
  ℕ, zero, suc, ◌+◌, ◌-◌, ◌%◌, ◌^◌, Bool, true, false, not, ◌||◌, List, [], ◌∷◌, Bytes, bytes_eq,
  contains, length, replicate, ltb, leb, ◌==◌, if◌then◌else◌,
}
use recovery_guardian_contra.Prelude.Words.{u64_max}
use recovery_guardian_contra.Prelude.Results.{Result, ok, err, ◌>>=◌, ◌>>◌, require}

-- An `address`: 20 bytes.
abbrev pub Address : Type 0
Address = Bytes

pub data State : Type 0 where
  none initiated paused executable executed aborted : State

pub record Config : Type 0 where
  pub pause_authority : Address
  pub abort_authority : Address
  pub resume_members : List Address
  pub resume_threshold : ℕ  -- uint8
  pub timelock_seconds : ℕ  -- uint64
  pub pause_ceiling_seconds : ℕ  -- uint64

pub record Attempt : Type 0 where
  pub state : State
  pub accrued_seconds : ℕ  -- uint64
  pub paused_seconds : ℕ  -- uint64
  pub checkpoint_time : ℕ  -- uint64

-- What a call reverts with: an error of the library, or the panic of checked arithmetic. A loop that
-- does not end would run out of gas.
pub data Revert : Type 0 where
  not_initiated not_paused not_executable already_terminal pause_budget_exhausted : Revert
  invalid_config : (reason : String) → Revert
  panic out_of_gas : Revert

-- Checked `a - b`, `a + b` and the conversion `uint64(a)`, which is not checked.
abbrev pub sub64 : ℕ → ℕ → Result Revert ℕ
sub64 a b = if ltb a b then err panic else ok (a - b)

abbrev pub add64 : ℕ → ℕ → Result Revert ℕ
add64 a b = if leb (a + b) u64_max then ok (a + b) else err panic

abbrev pub uint64 : ℕ → ℕ
uint64 a = a % 2 ^ 64

-- `==` of an enum.
unfoldable pub state_eq : State → State → Bool
state_eq State.none State.none = true
state_eq State.initiated State.initiated = true
state_eq State.paused State.paused = true
state_eq State.executable State.executable = true
state_eq State.executed State.executed = true
state_eq State.aborted State.aborted = true
state_eq _ _ = false

unfoldable pub is_terminal : State → Bool
unfolding state_eq
is_terminal state = state_eq state State.executed || state_eq state State.aborted

-- The `while` loop of `project`, on fuel.
unfoldable pub replay : ℕ → Config → Attempt → ℕ → Result Revert Attempt
replay zero config attempt remaining = err out_of_gas
replay (suc fuel) config attempt remaining = elim (ltb 0 remaining) [
  | false ↦ ok attempt
  | true ↦ elim attempt.state [
    | State.paused ↦ sub64 config.pause_ceiling_seconds attempt.paused_seconds >>= λ until_ceiling.
        elim (ltb remaining until_ceiling) [
          | true ↦ add64 attempt.paused_seconds remaining >>= λ paused_seconds.
              ok (record attempt { paused_seconds = paused_seconds })
          | false ↦ sub64 remaining until_ceiling >>= λ left.
              replay fuel config
                (record attempt {
                  state = State.initiated;
                  paused_seconds = config.pause_ceiling_seconds;
                })
                left
        ]
    | State.initiated ↦ sub64 config.timelock_seconds attempt.accrued_seconds >>= λ until_mature.
        elim (ltb remaining until_mature) [
          | true ↦ add64 attempt.accrued_seconds remaining >>= λ accrued_seconds.
              ok (record attempt { accrued_seconds = accrued_seconds })
          | false ↦ ok (record attempt {
            state = State.executable;
            accrued_seconds = config.timelock_seconds;
          })
        ]
    | _ ↦ ok attempt
  ]
]

-- One round each for a pause that ends, for the timelock, and to find nothing left to do.
abbrev pub replay_fuel : ℕ
replay_fuel = 3

-- `timestamp` is `block.timestamp`.
unfoldable pub project : Config → Attempt → ℕ → Result Revert Attempt
unfolding state_eq is_terminal replay
project config attempt timestamp =
    if state_eq attempt.state State.none
      || is_terminal attempt.state
      || state_eq attempt.state State.executable
    then ok attempt
    else sub64 (uint64 timestamp) attempt.checkpoint_time >>= λ remaining.
        replay replay_fuel config (record attempt { checkpoint_time = uint64 timestamp }) remaining

unfoldable pub settle : Config → Attempt → ℕ → Result Revert Attempt
settle config attempt timestamp = do
  projected ← project config attempt timestamp
  ok (record attempt {
    state = projected.state;
    accrued_seconds = projected.accrued_seconds;
    paused_seconds = projected.paused_seconds;
    checkpoint_time = projected.checkpoint_time;
  })

unfoldable pub start : Attempt → ℕ → Attempt
start attempt timestamp = record attempt {
  state = State.initiated;
  accrued_seconds = 0;
  paused_seconds = 0;
  checkpoint_time = uint64 timestamp;
}

abbrev pub Transition : Type 0
Transition = Config → Attempt → ℕ → Result Revert Attempt

unfoldable pub pause : Transition
unfolding settle state_eq is_terminal
pause config attempt timestamp = do
  settled ← settle config attempt timestamp
  require (not (is_terminal settled.state)) already_terminal
  require (state_eq settled.state State.initiated) not_initiated
  require (not (leb config.pause_ceiling_seconds settled.paused_seconds)) pause_budget_exhausted
  ok (record settled { state = State.paused })

unfoldable pub resume : Transition
unfolding settle state_eq is_terminal
resume config attempt timestamp = do
  settled ← settle config attempt timestamp
  require (not (is_terminal settled.state)) already_terminal
  require (state_eq settled.state State.paused) not_paused
  ok (record settled { state = State.initiated })

unfoldable pub abort : Transition
unfolding settle state_eq is_terminal
abort config attempt timestamp = do
  settled ← settle config attempt timestamp
  require (not (state_eq settled.state State.none)) not_initiated
  require (not (is_terminal settled.state)) already_terminal
  ok (record settled { state = State.aborted })

unfoldable pub execute : Transition
unfolding settle state_eq is_terminal
execute config attempt timestamp = do
  settled ← settle config attempt timestamp
  require (state_eq settled.state State.executable) not_executable
  ok (record settled { state = State.executed })

-- The loop is an `any`.
unfoldable pub is_resume_member : Config → Address → Bool
is_resume_member config candidate = contains config.resume_members candidate

-- `address(0)`
abbrev pub zero_address : Address
zero_address = replicate 20 0

-- The inner loop of `validate`: none of the later members is this one.
unfoldable pub require_distinct : Address → List Address → Result Revert (Unit {0})
require_distinct member [] = ok tt
require_distinct member (later ∷ rest) = do
  require (not (bytes_eq later member)) (invalid_config "resumeQuorum contains a duplicate")
  require_distinct member rest

unfoldable pub validate_members : Config → List Address → Result Revert (Unit {0})
unfolding require_distinct
validate_members config [] = ok tt
validate_members config (member ∷ rest) = do
  require (not (bytes_eq member zero_address)) (invalid_config "resumeQuorum contains zero address")
  require (not (bytes_eq member config.pause_authority))
      (invalid_config "pause and resume held by one party")
  require (not (bytes_eq member config.abort_authority))
      (invalid_config "resume and abort held by one party")
  require_distinct member rest
  validate_members config rest

unfoldable pub validate : Config → Result Revert (Unit {0})
unfolding validate_members
validate config = do
  require (not (bytes_eq config.pause_authority zero_address))
      (invalid_config "pauseAuthority is zero")
  require (not (bytes_eq config.abort_authority zero_address))
      (invalid_config "abortAuthority is zero")
  require (not (length config.resume_members == 0)) (invalid_config "resumeQuorum is empty")
  require (not (config.resume_threshold == 0)) (invalid_config "resumeThreshold is zero")
  require (not (ltb (length config.resume_members) config.resume_threshold))
      (invalid_config "resumeThreshold exceeds membership")
  require (not (config.timelock_seconds == 0)) (invalid_config "timelockSeconds is zero")
  require (not (config.pause_ceiling_seconds == 0)) (invalid_config "pauseCeilingSeconds is zero")
  require (not (bytes_eq config.abort_authority config.pause_authority))
      (invalid_config "pause and abort held by one party")
  validate_members config config.resume_members

-- The loop over the members is an `any`.
unfoldable pub validate_recovery_owner : Config → Address → Result Revert (Unit {0})
validate_recovery_owner config recovery_owner = do
  require
      (not (
        bytes_eq recovery_owner config.pause_authority
        || bytes_eq recovery_owner config.abort_authority))
      (invalid_config "recoveryOwner holds a veto role")
  require (not (contains config.resume_members recovery_owner))
      (invalid_config "recoveryOwner holds a veto role")
