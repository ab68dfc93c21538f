-- ===== src/Evm/GradualVeto/Differential.antt =====
-- The same moves at the same times on the Solidity machine and on the Rust crate, which is what
-- solana/crates/gradual-veto/tests/differential.rs and evm/test/VetoDifferential.t.sol replay.
use mathlib.Core.Path.{subst}
use recovery_guardian_contra.Prelude.{ℕ, ◌≡◌, ◌≤◌, arith, List, [], ◌∷◌, map, refl, sym, ap, ◌∙◌}
use recovery_guardian_contra.Prelude.Int.{pos, ℤ}
use recovery_guardian_contra.Prelude.Words.{i64_max}
use recovery_guardian_contra.Prelude.Results.{ok, err, Result}
use recovery_guardian_contra.Veto
use recovery_guardian_contra.Veto.{VetoError}
use recovery_guardian_contra.Veto.Attempts.{IsTimed, IsValid, start-IsValid}
use recovery_guardian_contra.Veto.Accounting.{move-IsValid}
use recovery_guardian_contra.Veto.Transitions.{Move, pausing, resuming, aborting, executing}
use recovery_guardian_contra.Veto.Transitions
use recovery_guardian_contra.Veto.Traces
use recovery_guardian_contra.Evm.GradualVeto.{
  Config, Attempt, Revert, project, pause, resume, abort, execute, start,
}
use recovery_guardian_contra.Evm.GradualVeto.Agreement.{run_move, run_move-Agrees}
use recovery_guardian_contra.Evm.GradualVeto.Translation.{config_of, attempt_of, Agrees}

-- A revert leaves the storage as it was.
abbrev pub after_call : Result Revert Attempt → Attempt → Attempt
after_call (ok after) before = after
after_call (err _) before = before

unfoldable pub run_moves : Config → Attempt → List (Move × ℕ) → Attempt
unfolding run_move
run_moves config attempt [] = attempt
run_moves config attempt ((move, timestamp) ∷ moves) =
    run_moves config (after_call (run_move move config attempt timestamp) attempt) moves

-- Blocks follow one another, at times that both clocks can hold.
abbrev pub AllOrdered : ℕ → List (Move × ℕ) → Type 0
AllOrdered latest [] = Unit {0}
AllOrdered latest ((move, timestamp) ∷ moves) =
    (latest ≤ timestamp) × (timestamp ≤ i64_max) × AllOrdered timestamp moves

abbrev pub on_solana : Move × ℕ → Move × ℤ
on_solana (move, timestamp) = (move, pos timestamp)

-- A call never moves the checkpoint past its block.
run_move_checkpoint :
    (move : Move) (config : Config) (attempt : Attempt) (timestamp : ℕ)
    → attempt.checkpoint_time ≤ timestamp
    → timestamp ≤ i64_max
    → (after_call (run_move move config attempt timestamp) attempt).checkpoint_time ≤ timestamp
unfolding run_move pause resume abort execute project
run_move_checkpoint pausing config attempt timestamp ahead word = ground arith
run_move_checkpoint resuming config attempt timestamp ahead word = ground arith
run_move_checkpoint aborting config attempt timestamp ahead word = ground arith
run_move_checkpoint executing config attempt timestamp ahead word = ground arith

-- Calls that agree leave the same attempt behind.
agree_after :
    (mine : Result Revert Attempt) (theirs : Result VetoError Veto.Attempt) (before : Attempt)
    → Agrees attempt_of mine theirs
    → attempt_of (after_call mine before) ≡ Traces.after_move theirs (attempt_of before)
agree_after (ok after) (ok other) before same = same
agree_after (err revert) (err error) before same = refl
agree_after (ok after) (err error) before same = absurd same
agree_after (err revert) (ok other) before same = absurd same

ordered_from :
    (earlier latest : ℕ) (moves : List (Move × ℕ))
    → earlier ≤ latest
    → AllOrdered latest moves
    → AllOrdered earlier moves
ordered_from earlier latest [] before ordered = tt
ordered_from earlier latest ((move, timestamp) ∷ moves) before (ahead, word, rest) =
    (omega arith, word, rest)

start_agrees :
    (attempt : Attempt) (origin : ℕ)
    → origin ≤ i64_max
    → (attempt_of (start attempt origin) ≡ Veto.start (attempt_of attempt) (pos origin))
      × ((start attempt origin).checkpoint_time ≡ origin)
unfolding start Veto.start
start_agrees attempt origin word = ground arith

module _ (config : Config) (timed : IsTimed (config_of config)) where
  moves_agree :
      (attempt : Attempt) (moves : List (Move × ℕ))
      → IsValid (config_of config) (attempt_of attempt)
      → AllOrdered attempt.checkpoint_time moves
      → attempt_of (run_moves config attempt moves)
        ≡ Traces.run_moves (config_of config) (attempt_of attempt) (map on_solana moves)
  unfolding run_moves Traces.run_moves
  moves_agree attempt [] valid ordered = refl
  moves_agree attempt ((move, timestamp) ∷ moves) valid (ahead, word, rest) =
      let after = after_call (run_move move config attempt timestamp) attempt in
      let same : attempt_of after
          ≡ Traces.after_move
              (Transitions.run_move move (config_of config) (attempt_of attempt) (pos timestamp))
              (attempt_of attempt) =
        agree_after _ _ attempt
          (run_move-Agrees config attempt timestamp timed valid ahead word move) in
      let valid' : IsValid (config_of config) (attempt_of after) =
        subst (IsValid (config_of config)) (sym same) (
          move-IsValid (config_of config) (pos 0) timed move (attempt_of attempt) (pos timestamp)
            valid) in
      moves_agree after moves valid' (
        ordered_from _ timestamp moves
          (run_move_checkpoint move config attempt timestamp ahead word) rest)
      ∙ ap (λ a. Traces.run_moves (config_of config) a (map on_solana moves)) same

  -- The two machines agree on whole histories: for a configuration with positive durations of
  -- `u64`, start the Solidity machine and the Rust machine at the same time on one attempt, and
  -- make any moves at the same times, ordered and within an `i64`, where a move that fails changes
  -- nothing. Then the attempts are the same.
  pub started_moves_agree :
      (attempt : Attempt) (origin : ℕ) (moves : List (Move × ℕ))
      → origin ≤ i64_max
      → AllOrdered origin moves
      → attempt_of (run_moves config (start attempt origin) moves)
        ≡ Traces.run_moves
            (config_of config)
            (Veto.start (attempt_of attempt) (pos origin))
            (map on_solana moves)
  started_moves_agree attempt origin moves word ordered =
      let (same, there) = start_agrees attempt origin word in
      let valid =
        subst (IsValid (config_of config)) (sym same)
          (start-IsValid (config_of config) (attempt_of attempt) (pos origin) timed) in
      moves_agree (start attempt origin) moves valid (rw there ordered)
      ∙ ap (λ a. Traces.run_moves (config_of config) a (map on_solana moves)) same
