-- ===== src/Finality.antt =====
-- The folder blockchain/finalityProvider: whether a shard is in sync, judged by its nonces.
-- `GetNetworkStatus` is the base proxy's, a parameter here.
pub mod CrossCheck
pub mod Verdict
pub mod Examples
use mx_sdk_erdgo.Prelude.{
  ℕ, ◌+◌, ◌%◌, Bool, true, false, ◌&&◌, Option, none, some, List, [], ◌∷◌, ltb, leb, ◌==◌, nat_eq,
  bytes_eq, if◌then◌else◌,
}
use mx_sdk_erdgo.Prelude.Exec.{
  Exec, Result, ok, err, ◌>>=◌, ◌>>◌, pure, raise, lift, wrapped, plain, node_not_started,
  invalid_allowed_delta_to_final, invalid_nonce_cross_check_value_format,
}
use mx_sdk_erdgo.Chain.{Bytes, u64}
use mx_sdk_erdgo.BigInt.{ℤ, pos, set_string}
use mx_sdk_erdgo.Builders.{abs}
use mx_sdk_erdgo.Text.{split}
use mx_sdk_erdgo.Text.Space.{trim_space}
use mx_sdk_erdgo.Text.Decimal.{format_int}

-- The fields of data/networkStatus.go that are read.
pub record NetworkStatus : Type 0 where
  pub nonce : ℕ
  pub cross_check_block_height : Bytes
  pub highest_nonce : ℕ
  pub probable_highest_nonce : ℕ
  pub shard_id : ℕ

pub record Nonces : Type 0 where
  pub current : ℕ
  pub highest : ℕ
  pub probable : ℕ

abbrev pub min_allowed_delta_to_final : ℕ
min_allowed_delta_to_final = 1

-- `core.MetachainShardId` of mx-chain-core-go.
abbrev pub metachain_shard_id : ℕ
metachain_shard_id = 4294967295

-- One round of the loop of `extractNonceOfShardID`: none where it goes on. `Uint64` keeps the low bits of
-- the absolute value.
abbrev pub value_of : Option ℤ → Result ℕ
value_of none = err (wrapped "not a valid number" invalid_nonce_cross_check_value_format)
value_of (some z) = ok (abs z % u64)

abbrev pub round : Bytes → List Bytes → Option (Result ℕ)
round shard (id ∷ nonce ∷ []) =
    if trim_space id == shard then some (value_of (set_string (trim_space nonce))) else none
round shard other = none

abbrev pub or_next : {A : Type 0} → Option A → A → A
or_next none a = a
or_next (some b) a = b

unfoldable pub find_shard : Bytes → List Bytes → Result ℕ
find_shard shard [] =
    err (wrapped "value not found for shard" invalid_nonce_cross_check_value_format)
find_shard shard (part ∷ parts) = or_next (round shard (split 58 part)) (find_shard shard parts)

unfoldable pub extract_nonce_of_shard_id : Bytes → ℕ → Result ℕ
unfolding find_shard
extract_nonce_of_shard_id [] shard_id =
    err (wrapped "empty value, maybe bad observer version" invalid_nonce_cross_check_value_format)
extract_nonce_of_shard_id (c ∷ cs) shard_id =
    find_shard (format_int (pos shard_id)) (split 44 (c ∷ cs))

abbrev pub is_empty : Nonces → Bool
is_empty nonces = (nonces.current == 0) && ((nonces.highest == 0) && (nonces.probable == 0))

-- The verdicts: sums of uint64 wrap around.
unfoldable pub judge_node : Nonces → ℕ → Result (Unit {0})
judge_node nonces delta =
    if ltb ((nonces.current + delta) % u64) nonces.probable
    then err (plain "is syncing")
    else if leb nonces.current ((nonces.highest + delta) % u64)
    then ok tt
    else err (plain "is stuck")

unfoldable pub judge_proxy : ℕ → ℕ → ℕ → Result (Unit {0})
judge_proxy from_meta from_shard delta =
    if ltb from_shard from_meta
    then err (plain "is syncing")
    else if leb from_shard ((from_meta + delta) % u64)
    then ok tt
    else err (plain "is stuck")

module _ {W : Type 0} (get_network_status : ℕ → Exec W NetworkStatus) where
  -- nodeFinalityProvider
  unfoldable pub get_nonces : ℕ → Exec W Nonces
  get_nonces target_shard_id = do
    status ← get_network_status target_shard_id
    let nonces : Nonces = record {
      current = status.nonce;
      highest = status.highest_nonce;
      probable = status.probable_highest_nonce;
    }
    if is_empty nonces then raise node_not_started else pure nonces

  unfoldable pub node_check_shard_finalization : ℕ → ℕ → Exec W (Unit {0})
  unfolding get_nonces
  node_check_shard_finalization target_shard_id delta =
      if ltb delta min_allowed_delta_to_final
      then raise (wrapped "provided" invalid_allowed_delta_to_final)
      else (do nonces ← get_nonces target_shard_id; lift (judge_node nonces delta))

  -- proxyFinalityProvider
  unfoldable pub get_nonces_from_meta_and_shard : ℕ → Exec W (ℕ × ℕ)
  get_nonces_from_meta_and_shard target_shard_id = do
    meta ← get_network_status metachain_shard_id
    from_meta ← lift (extract_nonce_of_shard_id meta.cross_check_block_height target_shard_id)
    shard ← get_network_status target_shard_id
    pure (from_meta, shard.nonce)

  unfoldable pub judge_shard : ℕ → ℕ → Exec W (Unit {0})
  unfolding get_nonces_from_meta_and_shard
  judge_shard target_shard_id delta = if target_shard_id == metachain_shard_id then pure tt else do
    (from_meta, from_shard) ← get_nonces_from_meta_and_shard target_shard_id
    lift (judge_proxy from_meta from_shard delta)

  unfoldable pub proxy_check_shard_finalization : ℕ → ℕ → Exec W (Unit {0})
  unfolding judge_shard
  proxy_check_shard_finalization target_shard_id delta =
      if ltb delta min_allowed_delta_to_final
      then raise (wrapped "provided" invalid_allowed_delta_to_final)
      else judge_shard target_shard_id delta

-- disabledFinalityProvider
unfoldable pub disabled_check_shard_finalization : {W : Type 0} → ℕ → ℕ → Exec W (Unit {0})
disabled_check_shard_finalization target_shard_id delta = pure tt
