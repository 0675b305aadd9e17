-- ===== src/BlockchainProxy/Examples.antt =====
-- A proxy before a node of a shard with two blocks. The world is the cache of blocks.
use mx_sdk_erdgo.Prelude.{
  ℕ, zero, suc, ◌≤◌, ◌≡◌, refl, sym, ◌⊎◌, inl, inr, Bool-cases, String, true, false, Option, none,
  some, List, [], ◌∷◌, ◌++◌, ◌↔◌, arith, ◌==◌, bytes_eq, if◌then◌else◌,
}
use mathlib.Core.List.{Permᴰ}
use mathlib.Core.Option.{some-injective}
use mx_sdk_erdgo.Prelude.Exec.{Result, ok, call}
use mx_sdk_erdgo.Dict.{Dict, lookup, insert, lookup-insert}
use mx_sdk_erdgo.Chain.{Account, Address, Bytes}
use mx_sdk_erdgo.BigInt.{ℤ, pos}
use mx_sdk_erdgo.Text.Decimal.{format_int}
use mx_sdk_erdgo.Finality.{NetworkStatus, judge_node}
use mx_sdk_erdgo.ExampleChain.{config}
use mx_sdk_erdgo.BaseProxy.{BaseProxy, Services, request, get_shard_of_address, get_network_status}
use mx_sdk_erdgo.Text.Ascii.{codes}
use mx_sdk_erdgo.Builders.{is_valid}
use mx_sdk_erdgo.Endpoints.{node_block_endpoints, account}
use mx_sdk_erdgo.BlockchainProxy.Accounts.{get_account}
use mx_sdk_erdgo.BlockchainProxy.Final.{IsFoundFinal, get_account-final}
use mx_sdk_erdgo.BlockchainProxy.{
  BlockchainProxy, BlockDataCache, CachedValue, byte_slice, Reply, node_finality_provider, fetch,
  get_http, network_status_of,
}
use mx_sdk_erdgo.BlockchainProxy.Transactions.{send_transactions}
use mx_sdk_erdgo.BlockchainProxy.Transactions.Hashes.{send_transactions_in_order}
use mx_sdk_erdgo.BlockchainProxy.Logs.{
  FilterQuery, Event, Block, BlockResponse, matching_of, matches_filter, resolve_block_range,
}
use mx_sdk_erdgo.BlockchainProxy.Logs.Fetching.{
  with_txs_and_logs, cache_key, compute_shard_id, filter_logs, get_block_bytes_by_nonce,
}
use mx_sdk_erdgo.BlockchainProxy.Logs.Matching.{IsWanted, matches_filter_iff}
use mx_sdk_erdgo.BlockchainProxy.Logs.Range.{IsShort, given, resolve_block_range-ok}
use mx_sdk_erdgo.BlockchainProxy.Logs.Blocks.{filter_logs-matching}
use mx_sdk_erdgo.BlockchainProxy.Logs.Shards.{get_block_bytes_by_nonce-mixed}
use mx_sdk_erdgo.BlockchainProxy.Logs.Cached.{IsCache, Published, IsSound}

abbrev World : Type 0
World = Dict Bytes Bytes

abbrev of_bytes : Option Bytes → Option CachedValue
of_bytes none = none
of_bytes (some buff) = some (byte_slice buff)

abbrev block_cache : BlockDataCache World
block_cache = record {
  get = λ key w. (of_bytes (lookup w key), w);
  put = λ key buff size w. insert w key buff;
}

abbrev status : NetworkStatus
status = record {
  nonce = 1;
  cross_check_block_height = [];
  highest_nonce = 1;
  probable_highest_nonce = 1;
  shard_id = 0;
}

-- The node answers with the path of the request.
abbrev services : Services World
services = record {
  get_http = λ endpoint w. (record { error = none; code = 200; buff = endpoint }, w);
  unmarshal_config = λ buff. ok record { carried = some config; error = "" };
  unmarshal_network_status = λ buff. ok record { carried = some status; error = "" };
  unmarshal_node_status = λ buff. ok record { carried = some status; error = "" };
  converter = record { decode = λ s. ok (7 ∷ []); encode = λ bs. ok "erd1" };
  compute_shard_id = λ shards address. ok 0;
  now = λ w. 5000000000;
}

abbrev ep : BlockchainProxy World
ep = record {
  endpoints = node_block_endpoints;
  services = services;
  post_http = λ endpoint body w. (record { error = none; code = 200; buff = body }, w);
  same_sc_state = false;
  should_be_synced = false;
  finality_check = true;
  allowed_delta_to_final = pos 1;
  finality_provider = node_finality_provider;
  filter_query_block_cacher = block_cache;
}

abbrev event : ℕ → Event
event n = record { address = "erd1"; identifier = "transfer"; topics = (n ∷ []) ∷ [] }

abbrev block_with : ℕ → List Event → Block
block_with n events = record {
  nonce = n;
  mini_blocks = record { transactions = record { logs = some events } ∷ [] } ∷ [];
}

abbrev block : ℕ → Block
block zero = block_with 0 (event 1 ∷ (event 2 ∷ []))
block (suc n) = block_with 1 (event 1 ∷ [])

abbrev raw : ℕ → Bytes
raw n = ep.endpoints.get_block_by_nonce 0 n ++ with_txs_and_logs

abbrev unmarshal : Bytes → Result BlockResponse
unmarshal buff =
    ok record { content = some (if buff == raw 0 then block 0 else block 1); error = "" }

abbrev filter : FilterQuery
filter = record {
  block_hash = none;
  from_block = some 0;
  to_block = none;
  addresses = [];
  shard_id = some 0;
  topics = (1 ∷ []) ∷ [];
}

put_found :
    (j k buff : Bytes) (w : World) (v : CachedValue)
    → of_bytes (lookup (insert w k buff) j) ≡ some v
    → ((j ≡ k) × (v ≡ byte_slice buff)) ⊎ (of_bytes (lookup w j) ≡ some v)
put_found j k buff w v e = elim (Bool-cases (k == j)) [
  | inl same ↦
      let key : k ≡ j = (bytes_eq.same_iff k j).0 same in
      let there : of_bytes (some buff) ≡ some v = rw (lookup-insert w k j buff, same) at e in
      inl (sym key, sym (some-injective (byte_slice buff) v there))
  | inr apart ↦ inr (rw (lookup-insert w k j buff, apart) at e)
]

cache : IsCache ep
unfolding request
cache = record {
  get-get = λ j k w v e. e;
  get-put = λ j k buff size w v e. put_found j k buff w v e;
  get-get_http = λ j endpoint w v e. e;
}

decoded : (n : ℕ) → n ≤ 1 → unmarshal (raw n) ≡ ok record { content = some (block n); error = "" }
unfolding format_int
decoded zero le = refl
decoded (suc zero) le = refl
decoded (suc (suc n)) le = let impossible : ⊥ = omega arith in elim impossible [ ]

answered : (n : ℕ) (w : World) → n ≤ 1 → (get_http ep (raw n) w).0 ≡ ok (raw n)
unfolding request
answered n w le = refl

abbrev chain : Published ep unmarshal 0 1
chain = record { raw = raw; block = block; decoded = decoded; answered = answered }

sound : IsSound ep unmarshal 0 1 cache chain []
unfolding lookup
sound n v buff le found used = ground arith

abbrev base : BaseProxy
base = record {
  fetched_configs = some config;
  last_fetched_time = 5000000000;
  cache_expiry_duration = 1000000000;
}

computed : compute_shard_id ep filter (base, []) ≡ (ok 0, (base, []))
unfolding compute_shard_id
computed = refl

status_found : network_status_of ep 0 [] ≡ (ok status, [])
unfolding get_network_status
status_found = refl

range : resolve_block_range filter 1 ≡ ok (0, 1)
unfolding resolve_block_range
range = refl

filter_logs-matching_example :
    (end : World) × (filter_logs ep unmarshal filter (base, [])
      ≡ (ok (some (matching_of filter (event 1 ∷ (event 2 ∷ (event 1 ∷ []))))), (base, end)))
    × IsSound ep unmarshal 0 1 cache chain end
filter_logs-matching_example =
    filter_logs-matching ep unmarshal 0 1 cache chain filter base base [] [] [] status 0 1
      (omega arith) refl (omega arith) tt computed status_found refl range sound

matching : matching_of filter (event 1 ∷ (event 2 ∷ (event 1 ∷ []))) ≡ event 1 ∷ (event 1 ∷ [])
unfolding matching_of
matching = refl

resolve_block_range-ok_example : (0 ≡ given (some 0) 0) × (1 ≡ given none 1) × (1 ≤ 1) × IsShort 0 1
resolve_block_range-ok_example =
    resolve_block_range-ok filter 1 0 1 (omega arith) tt (omega arith) range

matches_filter_iff_example : (matches_filter filter (event 1) ≡ true) ↔ IsWanted filter (event 1)
matches_filter_iff_example = matches_filter_iff filter (event 1)

abbrev txs_hashes : Dict ℤ String
txs_hashes = (pos 1, "b") ∷ ((pos 0, "a") ∷ [])

send_transactions_in_order_example :
    send_transactions ep
      (λ txs. ok [])
      (λ buff. ok record { content = txs_hashes; error = "" })
      []
      []
    ≡ (ok ("a" ∷ ("b" ∷ [])), [])
send_transactions_in_order_example =
    send_transactions_in_order ep (λ txs. ok [])
      (λ buff. ok record { content = txs_hashes; error = "" }) [] [] [] [] [] txs_hashes
      ((pos 0, "a") ∷ ((pos 1, "b") ∷ [])) refl refl refl ∣ Permᴰ.swap refl refl ∣₁ (refl, tt)

-- The path of block 1, which is what the node answers with, behind its first byte.
abbrev path_rest : Bytes
path_rest = codes "lock/by-nonce/1?withTxs=true&withLogs=true"

abbrev after_block : World
after_block = (cache_key 1, 98 ∷ path_rest) ∷ []

found_block : get_block_bytes_by_nonce ep 0 1 [] ≡ (ok (98 ∷ path_rest), after_block)
unfolding get_block_bytes_by_nonce insert format_int lookup request
found_block = refl

kept_bytes :
    (key value : Bytes) (size : ℕ) (w : World)
    → of_bytes (lookup (insert w key value) key) ≡ some (byte_slice value)
kept_bytes key value size w =
    rw (lookup-insert w key key value, (bytes_eq.same_iff key key).1 refl) refl

missing : of_bytes (lookup [] (cache_key 1)) ≡ none
unfolding lookup
missing = refl

get_block_bytes_by_nonce-mixed_example :
    get_block_bytes_by_nonce ep 3 1 after_block ≡ (ok (98 ∷ path_rest), after_block)
get_block_bytes_by_nonce-mixed_example =
    get_block_bytes_by_nonce-mixed ep 0 3 1 98 path_rest [] after_block kept_bytes (rw missing refl)
      found_block

abbrev holder : Account
holder = record {
  address = "erd1";
  nonce = 4;
  balance = "100";
  code = "";
  code_hash = [];
  root_hash = [];
  code_metadata = [];
  username = "";
  developer_reward = "";
  owner_address = "";
}

abbrev sevens : ℕ → Bytes
sevens zero = []
sevens (suc n) = 7 ∷ sevens n

abbrev known_address : Address
known_address = sevens 32

abbrev account_of : Bytes → Result (Reply (Option Account))
account_of buff = ok record { content = some holder; error = "" }

got : get_account ep account_of (some known_address) (base, []) ≡ (ok (some holder), (base, []))
unfolding get_account get_shard_of_address get_network_status judge_node
got = refl

get_account-final_example :
    (get_account ep account_of (some known_address) (base, []) ≡ (ok (some holder), (base, []))) ↔ (
      (known : Address) × (bech32 : String) × (middle : BaseProxy × World) × (some known_address
        ≡ some known)
      × (is_valid known ≡ true)
      × (ep.services.converter.encode known ≡ ok bech32)
      × IsFoundFinal ep bech32 (base, []) middle
      × (call (fetch ep account_of (account bech32)) middle ≡ (ok (some holder), (base, []))))
get_account-final_example =
    get_account-final ep account_of (some known_address) (some holder) (base, []) (base, []) refl
