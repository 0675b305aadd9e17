-- ===== src/BlockchainProxy.antt =====
-- blockchain/proxy.go: the requests of the SDK to a node or a proxy of the chain. This file has the
-- object, its constructor, the two kinds of requests and the test of finality.
pub mod Construction
pub mod Accounts
pub mod Queries
pub mod Transactions
pub mod Logs
pub mod Final
pub mod Examples
use mx_sdk_erdgo.Prelude.{
  ℕ, ◌-◌, ◌%◌, String, string_eq, Bool, true, false, not, ◌||◌, ◌&&◌, Option, none, some, List, [],
  ◌∷◌, ◌==◌, nat_eq, if◌then◌else◌,
}
use mx_sdk_erdgo.Prelude.Exec.{
  Exec, Result, ok, err, panic, ◌>>=◌, ◌>>◌, pure, lift, call, wrapped, plain,
}
use mx_sdk_erdgo.Chain.{Bytes, Response, u64}
use mx_sdk_erdgo.BigInt.{ℤ, pos, negsuc, is_less}
use mx_sdk_erdgo.Finality.{
  NetworkStatus, node_check_shard_finalization, proxy_check_shard_finalization,
  disabled_check_shard_finalization,
}
use mx_sdk_erdgo.BaseProxy.{
  BaseProxy, Services, EndpointProvider, RestApiEntityType, observer_node, proxy, another, request,
  body_of, create_http_status_error, new_base_proxy, get_shard_of_address, get_network_status,
}
use mx_sdk_erdgo.Endpoints.{BlockEndpoints, create_endpoint_provider}

-- What the cache of blocks may give: a `[]byte`, or a value of another type.
pub data CachedValue : Type 0 where
  byte_slice : Bytes → CachedValue
  of_another_type : CachedValue

-- `BlockDataCache`, which acts on the world.
pub record BlockDataCache (W : Type 0) : Type 0 where
  pub get : Bytes → W → Option CachedValue × W
  pub put : Bytes → Bytes → ℕ → W → W

-- blockchain/DisabledBlockDataCacher.go
abbrev pub disabled_block_data_cache : {W : Type 0} → BlockDataCache W
disabled_block_data_cache = record { get = λ key w. (none, w); put = λ key buff size w. w }

-- The providers of blockchain/finalityProvider.
pub data FinalityProvider : Type 0 where
  disabled_finality_provider node_finality_provider proxy_finality_provider : FinalityProvider

-- The HTTP client, in `services` and `post_http`, stands for `clientWrapper` of core/http. Nothing of
-- this object changes; what changes is in the embedded base proxy, which is part of the state.
pub record BlockchainProxy (W : Type 0) : Type 0 where
  pub endpoints : BlockEndpoints
  pub services : Services W
  pub post_http : Bytes → Bytes → W → Response × W
  pub same_sc_state : Bool
  pub should_be_synced : Bool
  pub finality_check : Bool
  pub allowed_delta_to_final : ℤ
  pub finality_provider : FinalityProvider
  pub filter_query_block_cacher : BlockDataCache W

-- An answer in JSON: what it carries, which is an option where that is a pointer, and the text of an
-- error.
pub record Reply (A : Type 0) : Type 0 where
  pub content : A
  pub error : String

-- `if response.Error != ""`
abbrev pub content_of : {A : Type 0} → Reply A → Result A
content_of reply = if reply.error == "" then ok reply.content else err (plain reply.error)

-- `uint64(…)` of an int.
abbrev pub to_uint64 : ℤ → ℕ
to_uint64 (pos n) = n % u64
to_uint64 (negsuc n) = u64 - 1 - n % u64

module _ {W : Type 0} (ep : BlockchainProxy W) where
  abbrev pub get_http : Bytes → Exec W Bytes
  get_http = request ep.endpoints.provider ep.services

  unfoldable pub post : Bytes → Bytes → Exec W Bytes
  unfolding body_of
  post endpoint body w = let (response, w') = ep.post_http endpoint body w in (body_of response, w')

  -- A request with GET whose answer `unmarshal` reads. Where a method only hands on what the answer
  -- carries, the type of that is a parameter.
  unfoldable pub fetch : {A : Type 0} → (Bytes → Result (Reply A)) → Bytes → Exec W A
  fetch unmarshal endpoint = do
    buff ← get_http endpoint
    reply ← lift (unmarshal buff)
    lift (content_of reply)

  -- A request with POST, of what `json.Marshal` has made.
  unfoldable pub post_json :
      {A : Type 0} → (Bytes → Result (Reply A)) → Bytes → Result Bytes → Exec W A
  unfolding post
  post_json unmarshal endpoint marshalled = do
    body ← lift marshalled
    buff ← post endpoint body
    reply ← lift (unmarshal buff)
    lift (content_of reply)

  abbrev pub network_status_of : ℕ → Exec W NetworkStatus
  network_status_of = get_network_status ep.endpoints.provider ep.services

  unfoldable pub check_shard_finalization : FinalityProvider → ℕ → ℕ → Exec W (Unit {0})
  unfolding node_check_shard_finalization proxy_check_shard_finalization
      disabled_check_shard_finalization
  check_shard_finalization disabled_finality_provider = disabled_check_shard_finalization
  check_shard_finalization node_finality_provider = node_check_shard_finalization network_status_of
  check_shard_finalization proxy_finality_provider =
      proxy_check_shard_finalization network_status_of

  -- The finality check of the shard of an address.
  unfoldable pub check_shard_of : String → Exec (BaseProxy × W) (Unit {0})
  unfolding check_shard_finalization
  check_shard_of address = do
    target_shard_id ← get_shard_of_address ep.endpoints.provider ep.services address
    call (
        check_shard_finalization ep.finality_provider target_shard_id
          (to_uint64 ep.allowed_delta_to_final))

  unfoldable pub check_final_state : String → Exec (BaseProxy × W) (Unit {0})
  unfolding check_shard_of
  check_final_state address = if not ep.finality_check then pure tt else check_shard_of address
