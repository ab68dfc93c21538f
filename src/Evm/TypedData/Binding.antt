-- ===== src/Evm/TypedData/Binding.antt =====
-- Whether two intents, or two resumes, can have one hash.
use native.Mathlib.Nat.{pow-suc}
use recovery_guardian_contra.Prelude.{
  ◌+◌, List, ℕ, zero, suc, ◌≡◌, ◌<◌, ◌^◌, ◌*◌, ◌/◌, ◌%◌, [], ◌∷◌, arith, Bytes, length, ◌⊎◌, inl,
  inr,
}
use recovery_guardian_contra.Prelude.{◌+◌, List, length-append}
use recovery_guardian_contra.Encoding.Injective.{append_split, SameShape}
use recovery_guardian_contra.Digest.Collision.{Collision, same_parts, same_config}
use recovery_guardian_contra.Evm.TypedData.{
  domain_words, prefix, Intent, Deployment, to_be_bytes, word, address_word, intent_words,
  hash_intent, domain_separator,
}

length-to_be_bytes : (width value : ℕ) → length (to_be_bytes width value) ≡ width
unfolding to_be_bytes
length-to_be_bytes zero value = omega arith
length-to_be_bytes (suc width) value = omega (
  arith,
  length-append (to_be_bytes width (value / 256)) ((value % 256) ∷ []),
  length-to_be_bytes width (value / 256),
)

to_be_bytes_injective :
    (width a b : ℕ)
    → a < 256 ^ width
    → b < 256 ^ width
    → to_be_bytes width a ≡ to_be_bytes width b
    → a ≡ b
unfolding to_be_bytes
to_be_bytes_injective zero a b ha hb h = omega arith
to_be_bytes_injective (suc width) a b ha hb h =
    let la : a < 256 ^ width * 256 = rw pow-suc at ha in
    let lb : b < 256 ^ width * 256 = rw pow-suc at hb in
    let (high, low) =
      append_split (to_be_bytes width (a / 256)) (to_be_bytes width (b / 256)) _ _
        (omega (arith, length-to_be_bytes)) h in
    let same : a % 256 ≡ b % 256 = cc in
    let rest : a / 256 ≡ b / 256 =
      to_be_bytes_injective width (a / 256) (b / 256) (grind arith) (grind arith) high in
    omega arith

length-word : (value : ℕ) → length (word value) ≡ 32
unfolding word
length-word value = length-to_be_bytes 32 value

word_injective : (a b : ℕ) → a < 2 ^ 256 → b < 2 ^ 256 → word a ≡ word b → a ≡ b
unfolding word
word_injective a b ha hb h = to_be_bytes_injective 32 a b (omega arith) (omega arith) h

address_word_injective : (a b : Bytes) → address_word a ≡ address_word b → a ≡ b
unfolding address_word
address_word_injective a b h = cc

length-address_word : (a : Bytes) → length (address_word a) ≡ 12 + length a
unfolding address_word
length-address_word a = omega arith

-- The widths of the Solidity types.
pub record IsIntent (intent : Intent) : Type 0 where
  pub account_sized : length intent.account ≡ 20
  pub validator_sized : length intent.new_validator ≡ 20
  pub epoch_word : intent.epoch < 2 ^ 256
  pub nonce_word : intent.nonce < 2 ^ 256
  pub expiry_word : intent.expiry < 2 ^ 48

-- A chain id and the address of a contract are of their types.
abbrev pub IsDomain : ℕ → Bytes → Type 0
IsDomain chain_id contract = (chain_id < 2 ^ 256) × (length contract ≡ 20)

-- The same contract code elsewhere.
abbrev pub elsewhere : Deployment → ℕ → Bytes → Deployment
elsewhere deployment chain_id contract = record deployment {
  chain_id = chain_id;
  contract = contract;
}

module _ (deployment : Deployment) (chain_id : ℕ) (contract : Bytes)
    (mine : IsDomain deployment.chain_id deployment.contract)
    (theirs : IsDomain chain_id contract) where
  domain_shape :
      SameShape (domain_words deployment) (domain_words (elsewhere deployment chain_id contract))
  unfolding domain_words
  domain_shape = omega (arith, deployment.keccak.length-hashv, length-word, length-address_word)

  domain_words_injective :
      domain_words deployment ≡ domain_words (elsewhere deployment chain_id contract)
      → (deployment.chain_id ≡ chain_id) × (deployment.contract ≡ contract)
  unfolding domain_words
  domain_words_injective e = ground (
    arith,
    word_injective deployment.chain_id chain_id,
    address_word_injective deployment.contract contract,
  )

  prefixed_shape :
      (mine_words their_words : List Bytes)
      → SameShape (prefix ∷ domain_separator deployment ∷ deployment.keccak.hashv mine_words ∷ []) (
          prefix
          ∷ domain_separator (elsewhere deployment chain_id contract)
          ∷ deployment.keccak.hashv their_words
          ∷ [])
  unfolding domain_separator
  prefixed_shape mine_words their_words = omega (arith, deployment.keccak.length-hashv)

  -- One digest has one domain and one struct hash.
  prefixed_binds :
      (mine_words their_words : List Bytes)
      → deployment.keccak.hashv
          (prefix ∷ domain_separator deployment ∷ deployment.keccak.hashv mine_words ∷ [])
        ≡ deployment.keccak.hashv (
            prefix
            ∷ domain_separator (elsewhere deployment chain_id contract)
            ∷ deployment.keccak.hashv their_words
            ∷ [])
      → ((deployment.chain_id ≡ chain_id)
          × (deployment.contract ≡ contract)
          × (deployment.keccak.hashv mine_words ≡ deployment.keccak.hashv their_words))
        ⊎ Collision deployment.keccak
  unfolding domain_separator
  prefixed_binds mine_words their_words h =
      elim (same_parts deployment.keccak _ _ (prefixed_shape mine_words their_words) h) [
        | inr c ↦ inr c
        | inl e ↦
            elim (same_parts deployment.keccak (domain_words deployment)
              (domain_words (elsewhere deployment chain_id contract)) domain_shape cc) [
                | inr c ↦ inr c
                | inl f ↦ let (chain, at) = domain_words_injective f in inl (chain, at, cc)
              ]
      ]

module _ (deployment : Deployment) where
  intent_shape :
      (i j : Intent)
      → IsIntent i
      → IsIntent j
      → SameShape (intent_words deployment i) (intent_words deployment j)
  unfolding intent_words
  intent_shape i j wi wj =
      omega (arith, deployment.keccak.length-hashv, length-word, length-address_word)

  intent_words_injective :
      (i j : Intent)
      → IsIntent i
      → IsIntent j
      → i.new_validator_init_data ≡ j.new_validator_init_data
      → intent_words deployment i ≡ intent_words deployment j
      → i ≡ j
  unfolding intent_words
  intent_words_injective i j wi wj same e = ground (
    arith,
    address_word_injective i.account j.account,
    word_injective i.epoch j.epoch,
    word_injective i.nonce j.nonce,
    address_word_injective i.new_validator j.new_validator,
    word_injective i.expiry j.expiry,
  )

  init_data_hash :
      (i j : Intent)
      → intent_words deployment i ≡ intent_words deployment j
      → deployment.keccak.hashv (i.new_validator_init_data ∷ [])
        ≡ deployment.keccak.hashv (j.new_validator_init_data ∷ [])
  unfolding intent_words
  init_data_hash i j e = cc

  intent_words_bind :
      (i j : Intent)
      → IsIntent i
      → IsIntent j
      → deployment.keccak.hashv (intent_words deployment i)
        ≡ deployment.keccak.hashv (intent_words deployment j)
      → (i ≡ j) ⊎ Collision deployment.keccak
  intent_words_bind i j wi wj h =
      elim (same_parts deployment.keccak _ _ (intent_shape i j wi wj) h) [
        | inr c ↦ inr c
        | inl e ↦ elim (same_config deployment.keccak _ _ (init_data_hash i j e)) [
          | inr c ↦ inr c
          | inl same ↦ inl (intent_words_injective i j wi wj same e)
        ]
      ]

  -- If the hashes of two intents of their Solidity widths are equal, on deployments with one hash
  -- function, then the chains, the contracts and the intents are equal, or a collision of the hash
  -- function is exhibited.
  pub intent_hash_binds :
      (chain_id : ℕ) (contract : Bytes) (i j : Intent)
      → IsDomain deployment.chain_id deployment.contract
      → IsDomain chain_id contract
      → IsIntent i
      → IsIntent j
      → hash_intent deployment i ≡ hash_intent (elsewhere deployment chain_id contract) j
      → ((deployment.chain_id ≡ chain_id) × (deployment.contract ≡ contract) × (i ≡ j))
        ⊎ Collision deployment.keccak
  unfolding hash_intent
  intent_hash_binds chain_id contract i j mine theirs wi wj h =
      elim (prefixed_binds deployment chain_id contract mine theirs (intent_words deployment i)
        (intent_words deployment j) h) [
          | inr c ↦ inr c
          | inl (chain, at, same) ↦ elim (intent_words_bind i j wi wj same) [
            | inr c ↦ inr c
            | inl e ↦ inl (chain, at, e)
          ]
        ]
