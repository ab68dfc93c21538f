-- ===== src/Evm/GradualVeto/Matured.antt =====
-- What an execution needs of the attempt.
use recovery_guardian_contra.Prelude.{ℕ, ◌≡◌, refl, ap, ◌∙◌, true}
use recovery_guardian_contra.Prelude.Results.{ok, >>=-eq-ok, require-eq-ok, ok_injective}
use recovery_guardian_contra.Evm.GradualVeto.{
  State, Config, Attempt, state_eq, project, settle, execute,
}

is_executable_lem :
    (state : State) → state_eq state State.executable ≡ true → state ≡ State.executable
unfolding state_eq
is_executable_lem State.none e = cc
is_executable_lem State.initiated e = cc
is_executable_lem State.paused e = cc
is_executable_lem State.executable e = refl
is_executable_lem State.executed e = cc
is_executable_lem State.aborted e = cc

-- The attempt is executable at this time.
abbrev pub HasMatured : Config → Attempt → ℕ → Type 0
HasMatured config attempt timestamp =
    (reached : Attempt) × (project config attempt timestamp ≡ ok reached)
    × (reached.state ≡ State.executable)

pub executed_from :
    (config : Config) (attempt : Attempt) (timestamp : ℕ) {after : Attempt}
    → execute config attempt timestamp ≡ ok after
    → HasMatured config attempt timestamp
unfolding execute settle
executed_from config attempt timestamp h =
    let (settled, ran, h1) = >>=-eq-ok (settle config attempt timestamp) _ h in
    let (reached, there, done) = >>=-eq-ok (project config attempt timestamp) _ ran in
    let (executable, _) = require-eq-ok (state_eq settled.state State.executable) _ _ h1 in
    (
      reached,
      there,
      ap (λ (a : Attempt). a.state) (ok_injective done)
          ∙ is_executable_lem settled.state executable,
    )
