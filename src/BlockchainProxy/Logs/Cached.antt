-- ===== src/BlockchainProxy/Logs/Cached.antt =====
-- The cache of blocks, in front of a chain.
use mx_sdk_erdgo.Prelude.{
  ℕ, ◌≤◌, ◌<◌, ◌≡◌, refl, sym, ap, ◌∙◌, ◌⊎◌, inl, inr, none, some, Option-cases, [], ◌∷◌, ◌++◌,
  arith, length,
}
use mx_sdk_erdgo.Prelude.Exec.{Result, ok}
use mx_sdk_erdgo.Chain.{Bytes, u64}
use mx_sdk_erdgo.Serde.SourceBuffer.{big_endian}
use mx_sdk_erdgo.Serde.SourceBuffer.RoundTrip.{big_endian-be_bytes}
use mx_sdk_erdgo.BlockchainProxy.{BlockchainProxy, CachedValue, byte_slice, get_http}
use mx_sdk_erdgo.BlockchainProxy.Logs.{
  FilterQuery, Block, BlockResponse, matching_of, extract_matching_events,
}
use mx_sdk_erdgo.BlockchainProxy.Logs.Flat.{events_in_mini_blocks, matching_in_mini_blocks_flat}
use mx_sdk_erdgo.BlockchainProxy.Logs.Fetching.{
  cache_key, usable, with_txs_and_logs, put_in_cache, fetch_and_put,
  get_block_bytes_by_nonce_with_txs_and_logs, get_block_bytes_by_nonce, get_logs_from_block,
}

cache_key_injective : (n m : ℕ) → n < u64 → m < u64 → cache_key n ≡ cache_key m → n ≡ m
unfolding cache_key
cache_key_injective n m lt lt' e =
    sym (big_endian-be_bytes 8 n lt) ∙ ap (big_endian 0) e ∙ big_endian-be_bytes 8 m lt'

-- What a cache promises: it gives what was put at a key, or nothing, and no request changes it.
pub record IsCache {W : Type 0} (ep : BlockchainProxy W) : Type 0 where
  pub get-get :
      (j k : Bytes) (w : W) (v : CachedValue)
      → (ep.filter_query_block_cacher.get j (ep.filter_query_block_cacher.get k w).1).0 ≡ some v
      → (ep.filter_query_block_cacher.get j w).0 ≡ some v
  pub get-put :
      (j k buff : Bytes) (size : ℕ) (w : W) (v : CachedValue)
      → (ep.filter_query_block_cacher.get j (ep.filter_query_block_cacher.put k buff size w)).0
        ≡ some v
      → ((j ≡ k) × (v ≡ byte_slice buff)) ⊎ ((ep.filter_query_block_cacher.get j w).0 ≡ some v)
  pub get-get_http :
      (j endpoint : Bytes) (w : W) (v : CachedValue)
      → (ep.filter_query_block_cacher.get j (get_http ep endpoint w).1).0 ≡ some v
      → (ep.filter_query_block_cacher.get j w).0 ≡ some v

-- The blocks of a shard up to a nonce, as the chain publishes them: their bytes, and what these say.
pub record Published {W : Type 0} (ep : BlockchainProxy W)
    (unmarshal : Bytes → Result BlockResponse) (shard_id top : ℕ) : Type 0 where
  pub raw : ℕ → Bytes
  pub block : ℕ → Block
  pub decoded :
      (n : ℕ) → n ≤ top → unmarshal (raw n) ≡ ok record { content = some (block n); error = "" }
  pub answered :
      (n : ℕ) (w : W)
      → n ≤ top
      → (get_http ep (ep.endpoints.get_block_by_nonce shard_id n ++ with_txs_and_logs) w).0
        ≡ ok (raw n)

module _ {W : Type 0} (ep : BlockchainProxy W) (unmarshal : Bytes → Result BlockResponse)
    (shard_id top : ℕ) (cache : IsCache ep) (chain : Published ep unmarshal shard_id top) where
  -- What the cache has for a block are the bytes of that block.
  abbrev pub IsSound : W → Type 0
  IsSound w =
      (n : ℕ) (v : CachedValue) (buff : Bytes)
      → n ≤ top
      → (ep.filter_query_block_cacher.get (cache_key n) w).0 ≡ some v
      → usable (some v) ≡ some buff
      → buff ≡ chain.raw n

  -- After a request, and after the bytes of a block are put, it still is so.
  get_http-IsSound : (endpoint : Bytes) (w : W) → IsSound w → IsSound (get_http ep endpoint w).1
  get_http-IsSound endpoint w sound n v buff le found =
      sound n v buff le (cache.get-get_http (cache_key n) endpoint w v found)

  get-IsSound : (k : Bytes) (w : W) → IsSound w → IsSound (ep.filter_query_block_cacher.get k w).1
  get-IsSound k w sound n v buff le found =
      sound n v buff le (cache.get-get (cache_key n) k w v found)

  usable-same : (buff found : Bytes) → usable (some (byte_slice buff)) ≡ some found → found ≡ buff
  usable-same [] found e = ground arith
  usable-same (b ∷ buff) found e = ground arith

  put-IsSound :
      top < u64
      → (n : ℕ) (w : W) → n ≤ top
      → IsSound w
      → IsSound
          (ep.filter_query_block_cacher.put (cache_key n) (chain.raw n) (length (chain.raw n)) w)
  put-IsSound small n w le sound m v buff le' found used =
      elim (cache.get-put (cache_key m) (cache_key n) (chain.raw n) (length (chain.raw n)) w v
        found) [
          | inl (key, value) ↦
              let same : m ≡ n = cache_key_injective m n (omega arith) (omega arith) key in
              usable-same (chain.raw n) buff (rw value at used) ∙ ap chain.raw (sym same)
          | inr older ↦ sound m v buff le' older used
        ]

  fetched :
      top < u64
      → (n : ℕ) (w : W) → n ≤ top
      → IsSound w
      → (end : W) × (fetch_and_put ep shard_id n w ≡ (ok (chain.raw n), end)) × IsSound end
  unfolding fetch_and_put get_block_bytes_by_nonce_with_txs_and_logs put_in_cache
  fetched small n w le sound =
      let endpoint = ep.endpoints.get_block_by_nonce shard_id n ++ with_txs_and_logs in
      let w' = (get_http ep endpoint w).1 in
      let answer = chain.answered n w le in
      (
        ep.filter_query_block_cacher.put (cache_key n) (chain.raw n) (length (chain.raw n)) w',
        rw answer refl,
        put-IsSound small n w' le (get_http-IsSound endpoint w sound),
      )

  hit-same :
      (n : ℕ) (w : W) (buff : Bytes)
      → n ≤ top
      → IsSound w
      → usable (ep.filter_query_block_cacher.get (cache_key n) w).0 ≡ some buff
      → buff ≡ chain.raw n
  hit-same n w buff le sound hit =
      elim (Option-cases (ep.filter_query_block_cacher.get (cache_key n) w).0) [
        | inl missing ↦ let impossible : none ≡ some buff = rw missing at hit in ground arith
        | inr (v, found) ↦ sound n v buff le found (rw found at hit)
      ]

  bytes_found :
      top < u64
      → (n : ℕ) (w : W) → n ≤ top
      → IsSound w
      → (end : W) × (get_block_bytes_by_nonce ep shard_id n w ≡ (ok (chain.raw n), end))
        × IsSound end
  unfolding get_block_bytes_by_nonce
  bytes_found small n w le sound =
      let found = (ep.filter_query_block_cacher.get (cache_key n) w).0 in
      let w' = (ep.filter_query_block_cacher.get (cache_key n) w).1 in
      let sound' = get-IsSound (cache_key n) w sound in
      elim (Option-cases (usable found)) [
        | inl missing ↦
            let (end, run, kept) = fetched small n w' le sound' in (end, rw missing run, kept)
        | inr (buff, hit) ↦
            let same = hit-same n w buff le sound hit in (w', rw hit (rw same refl), sound')
      ]

  pub logs_of_block :
      top < u64
      → (filter : FilterQuery) (n : ℕ) (w : W) → n ≤ top
      → IsSound w
      → (end : W) × (get_logs_from_block ep unmarshal shard_id filter n w
          ≡ (ok (matching_of filter (events_in_mini_blocks (chain.block n).mini_blocks)), end))
        × IsSound end
  unfolding get_logs_from_block extract_matching_events
  logs_of_block small filter n w le sound =
      let (end, run, kept) = bytes_found small n w le sound in
      let flat = matching_in_mini_blocks_flat filter (chain.block n).mini_blocks in
      (end, rw run (rw (chain.decoded n le) (rw flat refl)), kept)
