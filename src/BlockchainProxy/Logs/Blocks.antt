-- ===== src/BlockchainProxy/Logs/Blocks.antt =====
-- The logs of a range of blocks, with a cache in front of the chain.
use mx_sdk_erdgo.Prelude.{
  ℕ, zero, suc, ◌+◌, ◌-◌, ◌%◌, ◌≤◌, ◌<◌, ◌≡◌, refl, ap, ◌∙◌, inl, inr, true, false, none, some,
  List, ◌++◌, arith, leb,
}
use mx_sdk_erdgo.Prelude.Exec.{Result, ok, call}
use mx_sdk_erdgo.Prelude.Success.{ok-bind, ok-call}
use mx_sdk_erdgo.Chain.{Bytes, u64}
use mx_sdk_erdgo.Finality.{NetworkStatus}
use mx_sdk_erdgo.BaseProxy.{BaseProxy}
use mx_sdk_erdgo.BlockchainProxy.{BlockchainProxy, network_status_of}
use mx_sdk_erdgo.BlockchainProxy.Logs.{
  FilterQuery, Event, BlockResponse, matching_of, resolve_block_range,
}
use mx_sdk_erdgo.BlockchainProxy.Logs.Range.{IsUint64, IsShort, resolve_block_range-ok}
use mx_sdk_erdgo.BlockchainProxy.Logs.Flat.{
  events_in_mini_blocks, events_between, matching_of-append,
}
use mx_sdk_erdgo.BlockchainProxy.Logs.Cached.{IsCache, Published, IsSound, logs_of_block}
use mx_sdk_erdgo.BlockchainProxy.Logs.Fetching.{
  range_behind, collect_logs, get_logs_from_block, compute_shard_id,
  compute_from_to_blocks_for_filter, filter_blocks, filter_logs,
}

fits : {first last : ℕ} → IsShort first last → suc last - first < 502
fits (inl (up, near)) = omega arith
fits (inr (down, far)) = omega arith

module _ {W : Type 0} (ep : BlockchainProxy W) (unmarshal : Bytes → Result BlockResponse)
    (shard_id top : ℕ) (cache : IsCache ep) (chain : Published ep unmarshal shard_id top) where
  loop_step :
      (filter : FilterQuery) (fuel block_num next to_block : ℕ) (w middle end : W)
      (events others : List Event)
      → leb block_num to_block ≡ true
      → (block_num + 1) % u64 ≡ next
      → get_logs_from_block ep unmarshal shard_id filter block_num w
        ≡ (ok (matching_of filter events), middle)
      → collect_logs ep unmarshal fuel shard_id filter next to_block middle
        ≡ (ok (some (matching_of filter others)), end)
      → collect_logs ep unmarshal (suc fuel) shard_id filter block_num to_block w
        ≡ (ok (some (matching_of filter (events ++ others))), end)
  unfolding collect_logs
  loop_step filter fuel block_num next to_block w middle end events others goes_on same run rest =
      rw goes_on (rw run (rw same (rw rest (rw (matching_of-append filter events others) refl))))

  -- The loop, with fuel for one round more than there are blocks.
  pub collect_logs-matching :
      top < u64 - 1
      → (filter : FilterQuery) (count fuel first last : ℕ) (w : W) → count < fuel
      → count ≡ suc last - first
      → last ≤ top
      → IsSound ep unmarshal shard_id top cache chain w
      → (end : W) × (collect_logs ep unmarshal fuel shard_id filter first last w
          ≡ (ok (some (matching_of filter (events_between chain.block count first))), end))
        × IsSound ep unmarshal shard_id top cache chain end
  unfolding collect_logs matching_of
  collect_logs-matching small filter zero zero first last w lt e le sound =
      let impossible : ⊥ = omega arith in elim impossible [ ]
  collect_logs-matching small filter zero (suc fuel) first last w lt e le sound =
      let ended : leb first last ≡ false = ground arith in (w, rw ended refl, sound)
  collect_logs-matching small filter (suc count) zero first last w lt e le sound =
      let impossible : ⊥ = omega arith in elim impossible [ ]
  collect_logs-matching small filter (suc count) (suc fuel) first last w lt e le sound =
      let goes_on : leb first last ≡ true = ground arith in
      let (middle, run, kept) =
        logs_of_block ep unmarshal shard_id top cache chain (omega arith) filter first w
          (omega arith) sound in
      let next : (first + 1) % u64 ≡ first + 1 = omega arith in
      let (end, rest, kept') =
        collect_logs-matching small filter count fuel (first + 1) last middle (omega arith)
          (omega arith) le kept in
      (
        end,
        loop_step filter fuel first (first + 1) last w middle end
            (events_in_mini_blocks (chain.block first).mini_blocks)
            (events_between chain.block count (first + 1)) goes_on next run rest,
        kept',
      )

  filter_blocks-matching :
      (fuel : ℕ) (filter : FilterQuery) (w : W) (first last : ℕ)
      → top < u64 - 1
      → filter.block_hash ≡ none
      → resolve_block_range filter top ≡ ok (first, last)
      → suc last - first < fuel
      → last ≤ top
      → IsSound ep unmarshal shard_id top cache chain w
      → (end : W) × (filter_blocks ep unmarshal fuel filter shard_id top w ≡ (
        ok (some (matching_of filter (events_between chain.block (suc last - first) first))),
        end,
      ))
        × IsSound ep unmarshal shard_id top cache chain end
  unfolding filter_blocks compute_from_to_blocks_for_filter
  filter_blocks-matching fuel filter w first last small absent r bound le sound =
      let (end, run, kept) =
        collect_logs-matching small filter (suc last - first) fuel first last w bound refl le
          sound in
      let range : compute_from_to_blocks_for_filter ep unmarshal filter shard_id top w
          ≡ (ok (first, last), w) =
        ap (λ hash. range_behind ep unmarshal hash filter shard_id top w) absent ∙ rw r refl in
      (
        end,
        ok-bind (compute_from_to_blocks_for_filter ep unmarshal filter shard_id top) _ w
              (first, last) w range
            ∙ run,
        kept,
      )

  -- A search without a block hash, for which the shard, its status and the range are computed, in front of
  -- a sound cache, and where the latest nonce is not the highest of the uint64: it returns the events of
  -- the blocks of the range that match the filter, in the order of the blocks, and of the events in them.
  -- The cache is sound afterwards.
  pub filter_logs-matching :
      (filter : FilterQuery) (base base' : BaseProxy) (w w' w'' : W) (status : NetworkStatus)
      (first last : ℕ)
      → top < u64 - 1
      → filter.block_hash ≡ none
      → IsUint64 filter.from_block
      → IsUint64 filter.to_block
      → compute_shard_id ep filter (base, w) ≡ (ok shard_id, (base', w'))
      → network_status_of ep shard_id w' ≡ (ok status, w'')
      → status.nonce ≡ top
      → resolve_block_range filter top ≡ ok (first, last)
      → IsSound ep unmarshal shard_id top cache chain w''
      → (end : W) × (filter_logs ep unmarshal filter (base, w) ≡ (
        ok (some (matching_of filter (events_between chain.block (suc last - first) first))),
        (base', end),
      ))
        × IsSound ep unmarshal shard_id top cache chain end
  unfolding filter_logs
  filter_logs-matching filter base base' w w' w'' status first last small absent a b e f g r sound =
      let (one, two, le, near) = resolve_block_range-ok filter top first last a b (omega arith) r in
      let (end, run, kept) =
        filter_blocks-matching 502 filter w'' first last small absent r (fits near) le sound in
      (
        end,
        ok-bind (compute_shard_id ep filter) _ (base, w) shard_id (base', w') e
            ∙ ok-bind (call (network_status_of ep shard_id)) _ (base', w') status (base', w'')
                (ok-call (network_status_of ep shard_id) base' w' status w'' f)
            ∙ ok-call (filter_blocks ep unmarshal 502 filter shard_id status.nonce) base' w''
                (some (matching_of filter (events_between chain.block (suc last - first) first)))
                end
                (ap (λ nonce. filter_blocks ep unmarshal 502 filter shard_id nonce w'') g ∙ run),
        kept,
      )
