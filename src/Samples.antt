-- ===== src/Samples.antt =====
-- Concrete values for the tests: a hash function, a deployment, transactions and a registered vault.
use recovery_guardian_contra.Veto.{default_attempt, start, project}
use recovery_guardian_contra.Encoding.{to_le_bytes, concat}
use recovery_guardian_contra.Prelude.Int.{pos}
use recovery_guardian_contra.Prelude.Results.{err, ok}
use recovery_guardian_contra.Verify.{
  from_le_bytes, require_own, read_u16, verify_slot, verify_detached, Sysvar, Instruction,
}
use recovery_guardian_contra.Cluster.{localnet}
use recovery_guardian_contra.Vault.Handlers.{empty_attempt, intent_of, initiate_recovery}
use recovery_guardian_contra.Account.{
  attempt_from_veto, config_to_veto, attempt_to_veto, Vault, VetoConfigAccount,
}
use recovery_guardian_contra.Vault.Context.{recovery_initiated, Transaction, Intent, Deployment}
use recovery_guardian_contra.Digest.{length_prefixed, intent_digest, Hasher}
use recovery_guardian_contra.Prelude.{
  refl, ap, suc, zero, bytes_eq, true, ◌==◌, arith, ◌≡◌, [], if◌then◌else◌, ◌++◌, length, ◌∷◌,
  replicate, take, ◌≤◌, Bytes, ℕ,
}

pub length-take_pad : (n m : ℕ) (xs : Bytes) → n ≤ m → length (take n (xs ++ replicate m 0)) ≡ n
length-take_pad zero m xs h = refl
length-take_pad (suc n) (suc m) [] h = ap suc (length-take_pad n m [] (omega arith))
length-take_pad (suc n) zero [] h = absurd (omega arith)
length-take_pad (suc n) m (x ∷ xs) h = ap suc (length-take_pad n m xs (omega arith))

-- The first 32 bytes, padded: a function of the type of a hash, and no more.
abbrev pub hasher : Hasher
hasher = record {
  hashv = λ parts. take 32 (concat parts ++ replicate 32 0);
  length-hashv = λ parts. length-take_pad 32 32 (concat parts) (omega arith);
}

abbrev pub key : ℕ → Bytes
key b = replicate 32 b

abbrev pub deployment : Deployment
deployment = record {
  hasher = hasher;
  cluster = localnet;
  program_id = key 9;
  vault_key = key 8;
  derive = λ seeds. key 7;
}

-- One entry, with everything inside the instruction.
abbrev pub one_entry : Bytes → Bytes → Bytes
one_entry signer digest =
    1
    ∷ 0
    ∷ 16
    ∷ 0
    ∷ 255
    ∷ 255
    ∷ 80
    ∷ 0
    ∷ 255
    ∷ 255
    ∷ 112
    ∷ 0
    ∷ 32
    ∷ 0
    ∷ 255
    ∷ 255
    ∷ (replicate 64 0 ++ (signer ++ digest))

-- Two entries that share the message.
abbrev pub two_entries : Bytes → Bytes → Bytes → Bytes
two_entries first second digest =
    2
    ∷ 0
    ∷ 30
    ∷ 0
    ∷ 255
    ∷ 255
    ∷ 158
    ∷ 0
    ∷ 255
    ∷ 255
    ∷ 222
    ∷ 0
    ∷ 32
    ∷ 0
    ∷ 255
    ∷ 255
    ∷ 94
    ∷ 0
    ∷ 255
    ∷ 255
    ∷ 190
    ∷ 0
    ∷ 255
    ∷ 255
    ∷ 222
    ∷ 0
    ∷ 32
    ∷ 0
    ∷ 255
    ∷ 255
    ∷ (replicate 128 0 ++ (first ++ (second ++ digest)))

abbrev pub ed25519 : Bytes → Instruction
ed25519 payload = record { program_id = key 11; payload = payload }

-- A transaction at a time, whose only other instruction is the precompile's.
abbrev pub sysvar_of : Bytes → Sysvar
sysvar_of payload = record {
  ed25519_id = key 11;
  load_instruction = λ index. if index == 0 then ok (ed25519 payload) else err 1;
}

abbrev pub at_time : ℕ → Bytes → Transaction
at_time now payload = record {
  clock = ok (pos now);
  sysvar = sysvar_of payload;
  invoke_transfer = λ source destination amount. ok tt;
}

abbrev pub veto : VetoConfigAccount
veto = record {
  pause_authority = key 1;
  abort_authority = key 2;
  resume_members = key 3 ∷ key 4 ∷ [];
  resume_threshold = 2;
  timelock_seconds = 100;
  pause_ceiling_seconds = 30;
}

abbrev pub vault : Vault
vault = record {
  creator = key 5;
  vault_id = replicate 16 0;
  owner = key 5;
  recovery_owner = key 6;
  epoch = 0;
  nonce = 0;
  attempt_seq = 0;
  config_nonce = 1;
  veto = veto;
  attempt = empty_attempt;
  intent_digest = key 0;
  registered = true;
  bump = 254;
  sol_bump = 255;
}

abbrev pub intent : Intent
intent = record {
  new_owner = key 10;
  new_owner_config = 1 ∷ 2 ∷ [];
  epoch = 0;
  nonce = 0;
  expiry = pos 5000;
}

abbrev pub digest : Bytes
digest = intent_of deployment intent

abbrev pub opened : Vault
opened = record vault {
  attempt = record {
    state = 1;
    accrued_seconds = 0;
    paused_seconds = 0;
    checkpoint_time = pos 1000;
  };
  intent_digest = digest;
  attempt_seq = 1;
}

abbrev pub opening : Transaction
opening = at_time 1000 (one_entry (key 6) digest)

pub opens :
    initiate_recovery deployment opening intent 0 vault
    ≡ ok (opened, recovery_initiated (key 8) digest 0)
unfolding initiate_recovery verify_detached verify_slot read_u16 require_own from_le_bytes project
    attempt_to_veto config_to_veto intent_digest concat length_prefixed to_le_bytes bytes_eq
    attempt_from_veto start default_attempt
opens = refl
