-- ===== src/BlockchainProxy/Logs/Fetching.antt =====
-- blockchain/proxy.go: `FilterLogs`, with the blocks that it fetches, or finds in the cache.
use mx_sdk_erdgo.Prelude.{
  ℕ, zero, suc, ◌+◌, ◌%◌, String, Bool, true, false, not, Option, none, some, List, [], ◌∷◌, ◌++◌,
  length, leb, ◌==◌, nat_eq, if◌then◌else◌,
}
use mx_sdk_erdgo.Prelude.Exec.{
  Exec, Result, ok, err, panic, ◌>>=◌, ◌>>◌, pure, lift, call, fail_if, wrapped, plain,
  shard_id_mismatch,
}
use mx_sdk_erdgo.Chain.{Bytes, u64}
use mx_sdk_erdgo.Serde.SourceBuffer.RoundTrip.{be_bytes}
use mx_sdk_erdgo.Text.Ascii.{codes}
use mx_sdk_erdgo.Text.Hex.{encode_to_string}
use mx_sdk_erdgo.BaseProxy.{BaseProxy, get_shard_of_address}
use mx_sdk_erdgo.BlockchainProxy.{
  BlockchainProxy, CachedValue, byte_slice, of_another_type, content_of, get_http,
  network_status_of,
}
use mx_sdk_erdgo.BlockchainProxy.Logs.{
  FilterQuery, Event, Block, BlockResponse, extract_matching_events, maximum_blocks_delta,
  resolve_block_range,
}

-- The nonce in eight bytes, the highest first.
unfoldable pub cache_key : ℕ → Bytes
unfolding be_bytes
cache_key nonce = be_bytes 8 nonce

-- A cached value serves if it is a `[]byte` that is not empty.
abbrev pub usable : Option CachedValue → Option Bytes
usable none = none
usable (some of_another_type) = none
usable (some (byte_slice [])) = none
usable (some (byte_slice (b ∷ buff))) = some (b ∷ buff)

abbrev pub is_empty : Bytes → Bool
is_empty [] = true
is_empty (b ∷ buff) = false

abbrev pub nonce_of : Option Block → Result ℕ
nonce_of none = panic
nonce_of (some block) = ok block.nonce

abbrev pub joined : List Event → Option (List Event) → Option (List Event)
joined events none = none
joined events (some rest) = some (events ++ rest)

abbrev pub with_txs_and_logs : Bytes
with_txs_and_logs = codes "?withTxs=true&withLogs=true"

module _ {W : Type 0} (ep : BlockchainProxy W) where
  unfoldable pub get_block_bytes_by_nonce_with_txs_and_logs : ℕ → ℕ → Exec W Bytes
  get_block_bytes_by_nonce_with_txs_and_logs shard_id nonce =
      get_http ep (ep.endpoints.get_block_by_nonce shard_id nonce ++ with_txs_and_logs)

  unfoldable pub get_block_bytes_by_hash_with_txs_and_logs : ℕ → Bytes → Exec W Bytes
  get_block_bytes_by_hash_with_txs_and_logs shard_id hash =
      get_http ep (ep.endpoints.get_block_by_hash shard_id hash ++ with_txs_and_logs)

  unfoldable pub put_in_cache : Bytes → Bytes → Exec W (Unit {0})
  put_in_cache key buff w = (ok tt, ep.filter_query_block_cacher.put key buff (length buff) w)

  unfoldable pub fetch_and_put : ℕ → ℕ → Exec W Bytes
  unfolding get_block_bytes_by_nonce_with_txs_and_logs put_in_cache cache_key
  fetch_and_put shard_id nonce = do
    buff ← get_block_bytes_by_nonce_with_txs_and_logs shard_id nonce
    put_in_cache (cache_key nonce) buff
    pure buff

  abbrev pub cached_or : Exec W Bytes → Option Bytes → Exec W Bytes
  cached_or fetch none = fetch
  cached_or fetch (some buff) = pure buff

  unfoldable pub get_block_bytes_by_nonce : ℕ → ℕ → Exec W Bytes
  unfolding fetch_and_put cache_key
  get_block_bytes_by_nonce shard_id nonce w =
      let (found, w') = ep.filter_query_block_cacher.get (cache_key nonce) w in
      cached_or (fetch_and_put shard_id nonce) (usable found) w'

  unfoldable pub all_in_shard : ℕ → List String → Exec (BaseProxy × W) (Unit {0})
  unfolding get_shard_of_address
  all_in_shard shard_id [] = pure tt
  all_in_shard shard_id (address ∷ addresses) =
      let following = all_in_shard shard_id addresses in
      (do
        address_shard_id ← get_shard_of_address ep.endpoints.provider ep.services address
        fail_if (not (address_shard_id == shard_id)) (plain "addresses belong to different shards")
        following)

  -- The first address is looked up twice.
  unfoldable pub compute_shard_id_from_addresses : String → List String → Exec (BaseProxy × W) ℕ
  unfolding get_shard_of_address all_in_shard
  compute_shard_id_from_addresses address addresses = do
    shard_id ← get_shard_of_address ep.endpoints.provider ep.services address
    all_in_shard shard_id (address ∷ addresses)
    pure shard_id

  abbrev pub agreed : Option ℕ → ℕ → Result ℕ
  agreed none computed = ok computed
  agreed (some provided) computed =
      if not (provided == computed) then err (wrapped "computed" shard_id_mismatch) else ok provided

  abbrev pub provided_shard : Option ℕ → Result ℕ
  provided_shard none = err (plain "cannot compute shardID")
  provided_shard (some provided) = ok provided

  unfoldable pub compute_shard_id : FilterQuery → Exec (BaseProxy × W) ℕ
  unfolding compute_shard_id_from_addresses
  compute_shard_id filter = elim (filter.addresses) [
    | [] ↦ lift (provided_shard filter.shard_id)
    | address ∷ addresses ↦ do
      computed ← compute_shard_id_from_addresses address addresses
      lift (agreed filter.shard_id computed)
  ]

module _ {W : Type 0} (ep : BlockchainProxy W) (unmarshal : Bytes → Result BlockResponse) where
  -- The error of the response is not looked at.
  unfoldable pub get_block_number_by_hash : ℕ → Bytes → Exec W ℕ
  unfolding get_block_bytes_by_hash_with_txs_and_logs put_in_cache cache_key
  get_block_number_by_hash shard_id block_hash = do
    buff ← get_block_bytes_by_hash_with_txs_and_logs ep shard_id (encode_to_string block_hash)
    response ← lift (unmarshal buff)
    nonce ← lift (nonce_of response.content)
    if is_empty buff then pure tt else put_in_cache ep (cache_key nonce) buff
    pure nonce

  unfoldable pub get_logs_from_block : ℕ → FilterQuery → ℕ → Exec W (List Event)
  unfolding get_block_bytes_by_nonce extract_matching_events
  get_logs_from_block shard_id filter block_num = do
    buff ← get_block_bytes_by_nonce ep shard_id block_num
    response ← lift (unmarshal buff)
    block ← lift (content_of response)
    lift (extract_matching_events filter block)

  abbrev pub range_behind : Option Bytes → FilterQuery → ℕ → ℕ → Exec W (ℕ × ℕ)
  range_behind none filter shard_id latest_block = lift (resolve_block_range filter latest_block)
  range_behind (some block_hash) filter shard_id latest_block = do
    block_num ← get_block_number_by_hash shard_id block_hash
    pure (block_num, block_num)

  unfoldable pub compute_from_to_blocks_for_filter : FilterQuery → ℕ → ℕ → Exec W (ℕ × ℕ)
  unfolding get_block_number_by_hash resolve_block_range
  compute_from_to_blocks_for_filter filter = range_behind filter.block_hash filter

  -- The nonce of the blocks wraps around. None where the fuel ends before the loop does.
  unfoldable pub collect_logs : ℕ → ℕ → FilterQuery → ℕ → ℕ → Exec W (Option (List Event))
  unfolding get_logs_from_block
  collect_logs zero shard_id filter block_num to_block = pure none
  collect_logs (suc fuel) shard_id filter block_num to_block =
      let following = collect_logs fuel shard_id filter ((block_num + 1) % u64) to_block in
      if leb block_num to_block
      then (do
        block_logs ← get_logs_from_block shard_id filter block_num
        rest ← following
        pure (joined block_logs rest))
      else pure (some [])

  unfoldable pub filter_blocks : ℕ → FilterQuery → ℕ → ℕ → Exec W (Option (List Event))
  unfolding compute_from_to_blocks_for_filter collect_logs
  filter_blocks fuel filter shard_id latest_block = do
    (from_block, to_block) ← compute_from_to_blocks_for_filter filter shard_id latest_block
    collect_logs fuel shard_id filter from_block to_block

  -- A range of blocks has at most 501 of them, and one round more ends the loop.
  unfoldable pub filter_logs : FilterQuery → Exec (BaseProxy × W) (Option (List Event))
  unfolding compute_shard_id filter_blocks
  filter_logs filter = do
    shard_id ← compute_shard_id ep filter
    status ← call (network_status_of ep shard_id)
    call (filter_blocks (maximum_blocks_delta + 2) filter shard_id status.nonce)
