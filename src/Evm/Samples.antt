-- ===== src/Evm/Samples.antt =====
-- Concrete values for the tests: a deployment, a configuration, an intent and blocks.
use recovery_guardian_contra.Prelude.{ℕ, [], ◌∷◌, List, replicate, some}
use recovery_guardian_contra.Prelude.Results.{ok, err}
use recovery_guardian_contra.Samples.{hasher}
use recovery_guardian_contra.Evm.GradualVeto.{Address, Config}
use recovery_guardian_contra.Evm.TypedData.{Intent, Deployment}
use recovery_guardian_contra.Evm.RecoveryModule.{Environment, Storage, Effect, Outcome}
use recovery_guardian_contra.Evm.RecoveryModule.Invariant.{fresh}

abbrev pub address : ℕ → Address
address b = replicate 20 b

-- A signature is the address that signed.
abbrev pub deployment : Deployment
deployment = record {
  keccak = hasher;
  recover = λ digest signature. some signature;
  chain_id = 1;
  contract = address 9;
}

abbrev pub config : Config
config = record {
  pause_authority = address 1;
  abort_authority = address 2;
  resume_members = address 3 ∷ address 4 ∷ [];
  resume_threshold = 2;
  timelock_seconds = 100;
  pause_ceiling_seconds = 30;
}

abbrev pub guardian : Address
guardian = address 5

abbrev pub account : Address
account = address 6

abbrev pub intent : Intent
intent = record {
  account = account;
  epoch = 0;
  nonce = 0;
  new_validator = address 7;
  new_validator_init_data = 1 ∷ 2 ∷ [];
  expiry = 5000;
}

-- The account installs, and calls nothing back.
abbrev pub block : Address → ℕ → Environment
block sender timestamp = record {
  sender = sender;
  timestamp = timestamp;
  install_module = λ _ _ _ storage. some storage;
}

-- What a call leaves, where it does not revert.
abbrev pub left_by : Outcome → Storage × List Effect
left_by (ok result) = result
left_by (err error) = (fresh, [])
