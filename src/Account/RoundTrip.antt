-- ===== src/Account/RoundTrip.antt =====
-- The conversions of the account's parts to the veto machine's and back (state.rs).
use recovery_guardian_contra.Prelude.{arith, some, ◌≡◌, ℕ}
use recovery_guardian_contra.Account.{
  some, Attempt, ℕ, State, ordinal, attempt_from_veto, attempt_to_veto,
}
use recovery_guardian_contra.Veto.{Attempt, State, ordinal, from_ordinal}

-- An ordinal reads back as its state, and every ordinal of a state does.
pub from_ordinal-ordinal : (state : State) → from_ordinal (ordinal state) ≡ some state
unfolding from_ordinal ordinal
from_ordinal-ordinal state = ground arith

pub ordinal-from_ordinal : (n : ℕ) {state : State} → from_ordinal n ≡ some state → ordinal state ≡ n
unfolding from_ordinal ordinal
ordinal-from_ordinal n h = ground arith

-- An attempt that is stored in the account is read back as it was.
pub to_veto-from_veto : (attempt : Attempt) → attempt_to_veto (attempt_from_veto attempt) ≡ attempt
unfolding attempt_to_veto attempt_from_veto
to_veto-from_veto attempt = ground arith
