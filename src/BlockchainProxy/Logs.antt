-- ===== src/BlockchainProxy/Logs.antt =====
-- blockchain/proxy.go: what is asked of `FilterLogs`, the events of a block that match it, and the range
-- of the blocks. Fetching has the requests for them, and the loop.
pub mod Fetching
pub mod Matching
pub mod Range
pub mod Flat
pub mod Shards
pub mod Cached
pub mod Blocks
use mx_sdk_erdgo.Prelude.{
  ℕ, zero, suc, ◌+◌, ◌-◌, ◌%◌, String, string_eq, Bool, true, false, not, ◌&&◌, ◌||◌, Option, none,
  some, List, [], ◌∷◌, ◌++◌, map, length, ltb, leb, ◌==◌, nat_eq, bytes_eq, if◌then◌else◌,
}
use mx_sdk_erdgo.Prelude.Exec.{
  Exec, Result, ok, err, panic, ◌>>=◌, ◌>>◌, pure, raise, lift, call, wrapped, plain,
  shard_id_mismatch,
}
use mx_sdk_erdgo.Chain.{Bytes, u64}
use mx_sdk_erdgo.Serde.SourceBuffer.RoundTrip.{be_bytes}
use mx_sdk_erdgo.Text.Ascii.{codes}
use mx_sdk_erdgo.Text.Hex.{encode_to_string}
use mx_sdk_erdgo.BaseProxy.{BaseProxy, get_shard_of_address}
use mx_sdk_erdgo.BlockchainProxy.{
  BlockchainProxy, CachedValue, byte_slice, of_another_type, Reply, content_of, get_http,
  network_status_of,
}

-- core/types.go. The hash may be nil, and the others may have no value.
pub record FilterQuery : Type 0 where
  pub block_hash : Option Bytes
  pub from_block : Option ℕ
  pub to_block : Option ℕ
  pub addresses : List String
  pub shard_id : Option ℕ
  pub topics : List Bytes

-- `Events` and `Block` of mx-chain-core-go, by the fields that are read; the identifier stands for the
-- others. The lists of pointers in a block have no nil.
pub record Event : Type 0 where
  pub address : String
  pub identifier : String
  pub topics : List Bytes

pub record BlockTransaction : Type 0 where
  pub logs : Option (List Event)

pub record MiniBlock : Type 0 where
  pub transactions : List BlockTransaction

pub record Block : Type 0 where
  pub nonce : ℕ
  pub mini_blocks : List MiniBlock

-- `BlockResponse` of data/vmValues.go: the block is behind a pointer.
abbrev pub BlockResponse : Type 0
BlockResponse = Reply (Option Block)

abbrev pub maximum_blocks_delta : ℕ
maximum_blocks_delta = 500

unfoldable pub is_among : String → List String → Bool
is_among address [] = false
is_among address (a ∷ addresses) =
    let rest = is_among address addresses in if a == address then true else rest

-- No addresses at all match any.
unfoldable pub contains : List String → String → Bool
unfolding is_among
contains [] address = true
contains (a ∷ addresses) address = is_among address (a ∷ addresses)

-- The loop of `topicsMatch`; the test of the lengths comes before it.
unfoldable pub same_topics : List Bytes → List Bytes → Bool
same_topics [] event_topics = true
same_topics (t ∷ filter_topics) [] = false
same_topics (t ∷ filter_topics) (u ∷ event_topics) =
    let rest = same_topics filter_topics event_topics in if not (t == u) then false else rest

unfoldable pub topics_match : List Bytes → List Bytes → Bool
unfolding same_topics
topics_match filter_topics event_topics =
    if ltb (length event_topics) (length filter_topics)
    then false
    else same_topics filter_topics event_topics

unfoldable pub matches_filter : FilterQuery → Event → Bool
unfolding contains topics_match
matches_filter filter event =
    if not (contains filter.addresses event.address)
    then false
    else if ltb 0 (length filter.topics) && not (topics_match filter.topics event.topics)
    then false
    else true

unfoldable pub matching_of : FilterQuery → List Event → List Event
unfolding matches_filter
matching_of filter [] = []
matching_of filter (event ∷ events) =
    let rest = matching_of filter events in
    if matches_filter filter event then event ∷ rest else rest

abbrev pub events_of : BlockTransaction → List Event
events_of tx = elim (tx.logs) [ none ↦ [] | some events ↦ events ]

unfoldable pub matching_in_transactions : FilterQuery → List BlockTransaction → List Event
unfolding matching_of
matching_in_transactions filter [] = []
matching_in_transactions filter (tx ∷ txs) =
    matching_of filter (events_of tx) ++ matching_in_transactions filter txs

unfoldable pub matching_in_mini_blocks : FilterQuery → List MiniBlock → List Event
unfolding matching_in_transactions
matching_in_mini_blocks filter [] = []
matching_in_mini_blocks filter (mini_block ∷ mini_blocks) =
    matching_in_transactions filter mini_block.transactions
    ++ matching_in_mini_blocks filter mini_blocks

-- A nil block is a nil dereference.
unfoldable pub extract_matching_events : FilterQuery → Option Block → Result (List Event)
unfolding matching_in_mini_blocks
extract_matching_events filter none = panic
extract_matching_events filter (some block) = ok (matching_in_mini_blocks filter block.mini_blocks)

-- The difference of two uint64.
abbrev pub difference : ℕ → ℕ → ℕ
difference a b = (a + (u64 - b)) % u64

abbrev pub limited : ℕ → ℕ → Result (ℕ × ℕ)
limited from_block to_block =
    if leb (difference to_block from_block) maximum_blocks_delta
    then ok (from_block, to_block)
    else err (plain "invalid block range: too many blocks to process")

abbrev pub range_of : Option ℕ → Option ℕ → ℕ → Result (ℕ × ℕ)
range_of (some from_block) (some to_block) latest_block = limited from_block to_block
range_of (some from_block) none latest_block = limited from_block latest_block
range_of none (some to_block) latest_block = limited 0 to_block
range_of none none latest_block = err (plain "no block range specified")

abbrev pub is_above : Option ℕ → ℕ → Bool
is_above none latest_block = false
is_above (some to_block) latest_block = ltb latest_block to_block

unfoldable pub resolve_block_range : FilterQuery → ℕ → Result (ℕ × ℕ)
resolve_block_range filter latest_block =
    if is_above filter.to_block latest_block
    then err (plain "toBlock is greater than the latest block")
    else range_of filter.from_block filter.to_block latest_block
