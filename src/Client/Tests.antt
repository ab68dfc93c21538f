-- ===== src/Client/Tests.antt =====
-- The packer at concrete entries, alone and with the vault.
use recovery_guardian_contra.Vault.Steps.{resuming, run_call}
use recovery_guardian_contra.Prelude.Int.{ℤ, pos}
use recovery_guardian_contra.Client.Quorum.{quorum_lifts_pause, public_keys}
use recovery_guardian_contra.Digest.{length_prefixed, intent_digest, resume_digest}
use recovery_guardian_contra.Vault.Handlers.{projected, resume_of}
use recovery_guardian_contra.Veto.{State, project}
use recovery_guardian_contra.Vault.Context.{Effect, Transaction}
use recovery_guardian_contra.Account.{config_to_veto, attempt_to_veto, Vault}
use recovery_guardian_contra.Encoding.{concat, to_le_bytes}
use recovery_guardian_contra.Prelude.Results.{ok}
use recovery_guardian_contra.Verify.{verify_detached}
use recovery_guardian_contra.Prelude.{
  inr, bytes_eq_iff, inl, AllDistinct, arith, ◌*◌, ◌^◌, ◌+◌, bytes_eq, ◌≤◌, length, [], refl, ◌≡◌,
  some, ◌∷◌, replicate, Bytes, Option, List, ℕ,
}
use recovery_guardian_contra.Client.{sign_all, get, u16, rows, place_all, Entry, pack}
use recovery_guardian_contra.Client.Packing.{IsEntry}
use recovery_guardian_contra.Client.Total.{verify_detached-pack, pack_total}
use recovery_guardian_contra.Client.Digests.{
  Digests, VetoConfig, devnet, veto_fingerprint, digests_for, resume_digest_with,
}
use recovery_guardian_contra.Client.Digests.Agreement.{AllAgree, cluster_of, digests_agree}
use recovery_guardian_contra.Samples.{hasher, deployment, at_time, opened, key, sysvar_of}

abbrev entry : ℕ → ℕ → Entry
entry signer message = record {
  public_key = key signer;
  signature = replicate 64 signer;
  message = key message;
}

-- Two share their message, and a third has its own.
abbrev entries : List Entry
entries = entry 3 9 ∷ entry 4 9 ∷ entry 5 8 ∷ []

abbrev or_empty : Option Bytes → Bytes
or_empty (some bytes) = bytes
or_empty Option.none = []

abbrev payload : Bytes
payload = or_empty (pack entries)

packs : pack entries ≡ some payload
unfolding pack place_all rows u16 get bytes_eq to_le_bytes concat
packs = refl

-- 44 bytes of header and offsets, three keys and signatures, and two messages.
packs_length : length payload ≡ 396
unfolding pack place_all rows u16 get bytes_eq to_le_bytes concat
packs_length = refl

entry-IsEntry : (signer message : ℕ) → IsEntry (entry signer message)
entry-IsEntry signer message = record {
  key_sized = refl;
  signature_sized = refl;
  message_sized = refl;
}

verify_detached-pack_example :
    verify_detached (sysvar_of payload) 0 ((key 3, key 9) ∷ (key 4, key 9) ∷ (key 5, key 8) ∷ [])
    ≡ ok tt
verify_detached-pack_example =
    verify_detached-pack (sysvar_of payload) 0 entries packs
      (entry-IsEntry 3 9, (entry-IsEntry 4 9, (entry-IsEntry 5 8, tt))) refl

pack_total_example :
    (bytes : Bytes) × (pack entries ≡ some bytes) × (length bytes ≤ 2 + 142 * length entries)
pack_total_example =
    pack_total entries (omega arith)
      (entry-IsEntry 3 9, (entry-IsEntry 4 9, (entry-IsEntry 5 8, tt)))

-- The vault's attempt is paused, and both members of its quorum sign.
abbrev paused_vault : Vault
paused_vault = record opened {
  attempt = record {
    state = 2;
    accrued_seconds = 10;
    paused_seconds = 0;
    checkpoint_time = pos 1010;
  };
  attempt_seq = 2;
}

abbrev detached : Bytes → Bytes → Bytes
detached message secret_key = replicate 64 7

abbrev quorum : List (Bytes × Bytes)
quorum = (key 3, key 103) ∷ (key 4, key 104) ∷ []

abbrev endorsement : Bytes
endorsement = or_empty (sign_all detached quorum (resume_of deployment paused_vault))

abbrev lifting : Transaction
lifting = at_time 1015 endorsement

signs : sign_all detached quorum (resume_of deployment paused_vault) ≡ some endorsement
unfolding sign_all pack place_all rows u16 get bytes_eq to_le_bytes concat resume_digest
    intent_digest length_prefixed
signs = refl

paused_still : (projected paused_vault (pos 1015)).state ≡ State.paused
unfolding project attempt_to_veto config_to_veto
paused_still = refl

quorum_distinct : AllDistinct (public_keys quorum)
quorum_distinct = (
  (λ h. elim h [ inl e ↦ cc ((bytes_eq_iff (key 4) (key 3)).1 e) | inr none ↦ none ]),
  ((λ h. h), tt),
)

quorum_lifts_pause_example :
    (after : Vault) × (effect : Effect) × (run_call deployment lifting
        (resuming (key 3 ∷ key 4 ∷ []) 0)
        paused_vault
      ≡ ok (after, effect))
quorum_lifts_pause_example =
    quorum_lifts_pause deployment lifting paused_vault (pos 1015) detached quorum 0 (λ m k. refl)
      refl refl paused_still (refl, (refl, tt)) quorum_distinct (inl refl, (inr (inl refl), tt))
      (omega arith) signs refl

digests_agree_example :
    (digests : Digests) × (digests_for hasher.hashv devnet ≡ some digests)
    × AllAgree hasher hasher.hashv (cluster_of devnet) digests
digests_agree_example = digests_agree hasher hasher.hashv devnet (λ parts. refl)

-- A number that does not fit is an exception.
too_late :
    resume_digest_with hasher.hashv (key 1) (key 2) (key 3) (key 4) (pos (2 ^ 64)) ≡ Option.none
unfolding resume_digest_with
too_late = refl

-- A threshold that does not fit is not: 300 is signed as 44.
abbrev client_veto : ℤ → VetoConfig
client_veto threshold = record {
  pause_authority = key 1;
  abort_authority = key 2;
  resume_members = key 3 ∷ key 4 ∷ [];
  resume_threshold = threshold;
  timelock_seconds = pos 100;
  pause_ceiling_seconds = pos 30;
}

threshold_wraps :
    veto_fingerprint hasher.hashv (client_veto (pos 300))
    ≡ veto_fingerprint hasher.hashv (client_veto (pos 44))
unfolding veto_fingerprint
threshold_wraps = refl
