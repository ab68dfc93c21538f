-- ===== src/Cluster.antt =====
-- The compile-time cluster tag: solana/crates/nihilium-recovery-common/src/cluster.rs.
use recovery_guardian_contra.Encoding.{codes}
use recovery_guardian_contra.Prelude.{
  ◌↔◌, arith, ◌≢◌, ◌+◌, bytes_eq_iff, true, ◌||◌, not, ◌&&◌, replicate, if◌then◌else◌, ◌++◌, refl,
  some, ℕ, bytes_eq, Option, ◌≡◌, length, Bool, Bytes,
}

pub data Cluster : Type 0 where
  mainnet devnet localnet : Cluster

-- `CLUSTER_TAG` of each build, NUL-padded.
unfoldable pub cluster_tag : Cluster → Bytes
cluster_tag mainnet = codes "nihilium-cluster:mainnet-beta" ++ replicate 3 0
cluster_tag devnet = codes "nihilium-cluster:devnet" ++ replicate 9 0
cluster_tag localnet = codes "nihilium-cluster:localnet" ++ replicate 7 0

-- The `cfg` conditions on the three features; `none` is one of the two `compile_error!`s.
unfoldable pub build : Bool → Bool → Bool → Option Cluster
build has_mainnet has_devnet has_localnet =
    if has_mainnet && not (has_devnet || has_localnet)
    then some mainnet
    else if has_devnet && not (has_mainnet || has_localnet)
    then some devnet
    else if has_localnet && not (has_mainnet || has_devnet)
    then some localnet
    else Option.none

pub length-cluster_tag : (c : Cluster) → length (cluster_tag c) ≡ 32
unfolding cluster_tag
length-cluster_tag mainnet = refl
length-cluster_tag devnet = refl
length-cluster_tag localnet = refl

tag_eq : Cluster → Cluster → Bool
tag_eq c d = bytes_eq (cluster_tag c) (cluster_tag d)

tag_eq-eq : (c d : Cluster) → tag_eq c d ≡ true → c ≡ d
unfolding tag_eq cluster_tag bytes_eq
tag_eq-eq c d h = ground arith

-- Two clusters with one tag are the same cluster.
pub cluster_tag_injective : (c d : Cluster) → cluster_tag c ≡ cluster_tag d → c ≡ d
unfolding tag_eq
cluster_tag_injective c d h = tag_eq-eq c d ((bytes_eq_iff (cluster_tag c) (cluster_tag d)).1 h)

-- The number of features that are on.
abbrev pub count_features : Bool → Bool → Bool → ℕ
count_features a b c = (if a then 1 else 0) + (if b then 1 else 0) + (if c then 1 else 0)

-- The features give a build exactly when one and only one of the three is on.
pub build_iff : (a b c : Bool) → (build a b c ≢ Option.none) ↔ (count_features a b c ≡ 1)
unfolding build
build_iff a b c = ground arith
