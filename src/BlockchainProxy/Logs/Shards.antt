-- ===== src/BlockchainProxy/Logs/Shards.antt =====
-- The key of the cache is the nonce alone, and every shard has a block with that nonce.
use mx_sdk_erdgo.Prelude.{ℕ, ◌≡◌, refl, sym, ap, ◌∙◌, none, some, ◌∷◌, length}
use mx_sdk_erdgo.Prelude.Exec.{ok}
use mx_sdk_erdgo.Prelude.Success.{bind-ok, ok-injective}
use mx_sdk_erdgo.Chain.{Bytes}
use mx_sdk_erdgo.BlockchainProxy.{BlockchainProxy, byte_slice}
use mx_sdk_erdgo.BlockchainProxy.Logs.Fetching.{
  cache_key, usable, put_in_cache, fetch_and_put, get_block_bytes_by_nonce,
  get_block_bytes_by_nonce_with_txs_and_logs,
}

module _ {W : Type 0} (ep : BlockchainProxy W) where
  -- With a cache that gives back what was just put, a block that one shard was asked for, of which there
  -- was nothing in the cache, is what any other shard is said to have at that nonce, without a request.
  pub get_block_bytes_by_nonce-mixed :
      (shard_id other_shard_id nonce b : ℕ) (buff : Bytes) (w w' : W)
      → ((key value : Bytes) (size : ℕ) (s : W)
          → (ep.filter_query_block_cacher.get key
              (ep.filter_query_block_cacher.put key value size s)).0
            ≡ some (byte_slice value))
      → usable (ep.filter_query_block_cacher.get (cache_key nonce) w).0 ≡ none
      → get_block_bytes_by_nonce ep shard_id nonce w ≡ (ok (b ∷ buff), w')
      → get_block_bytes_by_nonce ep other_shard_id nonce w'
        ≡ (ok (b ∷ buff), (ep.filter_query_block_cacher.get (cache_key nonce) w').1)
  unfolding get_block_bytes_by_nonce fetch_and_put put_in_cache
  get_block_bytes_by_nonce-mixed shard_id other_shard_id nonce b buff w w' kept missing run =
      let w1 = (ep.filter_query_block_cacher.get (cache_key nonce) w).1 in
      let (read, middle, asked, rest) =
        bind-ok (get_block_bytes_by_nonce_with_txs_and_logs ep shard_id nonce) _ w1 (b ∷ buff) w'
          (rw missing at run) in
      let same : read ≡ b ∷ buff = ok-injective read (b ∷ buff) (ap (λ r. r.0) rest) in
      let put_there : ep.filter_query_block_cacher.put (cache_key nonce) read (length read) middle
          ≡ w' =
        ap (λ r. r.1) rest in
      let found : (ep.filter_query_block_cacher.get (cache_key nonce) w').0
          ≡ some (byte_slice (b ∷ buff)) =
        ap (λ s. (ep.filter_query_block_cacher.get (cache_key nonce) s).0) (sym put_there)
        ∙ kept (cache_key nonce) read (length read) middle
        ∙ ap (λ v. some (byte_slice v)) same in
      rw found refl
