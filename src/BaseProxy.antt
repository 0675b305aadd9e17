-- ===== src/BaseProxy.antt =====
-- blockchain/baseProxy.go: the configuration of the network, kept for a while, and the status of a shard;
-- with the parts of blockchain/endpointProviders that it calls.
pub mod Cache
pub mod Examples
use mx_sdk_erdgo.Prelude.{
  ℕ, ◌+◌, ◌-◌, ◌^◌, min, String, string_eq, Bool, true, false, not, ◌||◌, Option, none, some, List,
  [], ◌∷◌, ◌++◌, ltb, ◌==◌, nat_eq, if◌then◌else◌,
}
use mx_sdk_erdgo.Prelude.Exec.{
  Exec, Result, ok, err, panic, Error, ◌>>=◌, ◌>>◌, pure, raise, lift, call, wrapped, plain,
  http_status_code_is_not_ok, nil_network_status, shard_id_mismatch, invalid_endpoint_provider,
}
use mx_sdk_erdgo.Chain.{Bytes, NetworkConfig, PubkeyConverter, Response}
use mx_sdk_erdgo.BigInt.{pos}
use mx_sdk_erdgo.Text.Decimal.{format_int}
use mx_sdk_erdgo.Finality.{NetworkStatus}

pub data RestApiEntityType : Type 0 where
  observer_node proxy another : RestApiEntityType

-- The methods of `EndpointProvider` that the base proxy calls.
pub record EndpointProvider : Type 0 where
  pub get_network_config_endpoint : Bytes
  pub get_node_status : ℕ → Bytes
  pub should_check_shard_id_for_node_status : Bool
  pub get_rest_api_entity_type : RestApiEntityType

-- `network/config`, for both providers.
abbrev pub network_config : Bytes
network_config =
    110 ∷ 101 ∷ 116 ∷ 119 ∷ 111 ∷ 114 ∷ 107 ∷ 47 ∷ 99 ∷ 111 ∷ 110 ∷ 102 ∷ 105 ∷ 103 ∷ []

-- `node/status`
abbrev pub node_status : Bytes
node_status = 110 ∷ 111 ∷ 100 ∷ 101 ∷ 47 ∷ 115 ∷ 116 ∷ 97 ∷ 116 ∷ 117 ∷ 115 ∷ []

-- `network/status/`
abbrev pub network_status : Bytes
network_status =
    110 ∷ 101 ∷ 116 ∷ 119 ∷ 111 ∷ 114 ∷ 107 ∷ 47 ∷ 115 ∷ 116 ∷ 97 ∷ 116 ∷ 117 ∷ 115 ∷ 47 ∷ []

abbrev pub node_endpoint_provider : EndpointProvider
node_endpoint_provider = record {
  get_network_config_endpoint = network_config;
  get_node_status = λ shard_id. node_status;
  should_check_shard_id_for_node_status = true;
  get_rest_api_entity_type = observer_node;
}

abbrev pub proxy_endpoint_provider : EndpointProvider
proxy_endpoint_provider = record {
  get_network_config_endpoint = network_config;
  get_node_status = λ shard_id. network_status ++ format_int (pos shard_id);
  should_check_shard_id_for_node_status = false;
  get_rest_api_entity_type = proxy;
}

-- The answers of the API: what they carry, behind a pointer, and the text of an error.
pub record Answer (A : Type 0) : Type 0 where
  pub carried : Option A
  pub error : String

-- What the base proxy calls: the HTTP client, `json.Unmarshal` at the three types of answers, the
-- converter of addresses, the shard coordinator of mx-chain-go, and the clock, in nanoseconds since the
-- year 1.
pub record Services (W : Type 0) : Type 0 where
  pub get_http : Bytes → W → Response × W
  pub unmarshal_config : Bytes → Result (Answer NetworkConfig)
  pub unmarshal_network_status : Bytes → Result (Answer NetworkStatus)
  pub unmarshal_node_status : Bytes → Result (Answer NetworkStatus)
  pub converter : PubkeyConverter
  pub compute_shard_id : ℕ → Bytes → Result ℕ
  pub now : W → ℕ

-- The last time is the zero time, of the year 1, where nothing was fetched.
pub record BaseProxy : Type 0 where
  pub fetched_configs : Option NetworkConfig
  pub last_fetched_time : ℕ
  pub cache_expiry_duration : ℕ

-- `time.Second`; the constructor refuses a shorter expiry.
abbrev pub minimum_caching_interval : ℕ
minimum_caching_interval = 1000000000

unfoldable pub new_base_proxy : ℕ → Result BaseProxy
new_base_proxy expiration_time =
    if ltb expiration_time minimum_caching_interval
    then err (wrapped "provided" (plain "invalid caching duration"))
    else ok record {
      fetched_configs = none;
      last_fetched_time = 0;
      cache_expiry_duration = expiration_time;
    }

unfoldable pub create_http_status_error : Option Error → Error
create_http_status_error none = wrapped "returned http status" http_status_code_is_not_ok
create_http_status_error (some e) = wrapped "returned http status" e

abbrev pub is_some : {A : Type 0} → Option A → Bool
is_some none = false
is_some (some a) = true

-- `if response.Error != ""`
abbrev pub carried_or_error : {A : Type 0} → Answer A → Result (Option A)
carried_or_error answer = if answer.error == "" then ok answer.carried else err (plain answer.error)

unfoldable pub body_of : Response → Result Bytes
unfolding create_http_status_error
body_of response =
    if is_some response.error || not (response.code == 200)
    then err (create_http_status_error response.error)
    else ok response.buff

module _ {W : Type 0} (provider : EndpointProvider) (services : Services W) where
  unfoldable pub request : Bytes → Exec W Bytes
  unfolding body_of
  request endpoint w = let (response, w') = services.get_http endpoint w in (body_of response, w')

  -- `time.Since` gives at most the largest duration.
  unfoldable pub get_cached_configs : BaseProxy → W → Option NetworkConfig
  get_cached_configs base w =
      if ltb base.cache_expiry_duration (min (services.now w - base.last_fetched_time) (2 ^ 63 - 1))
      then none
      else base.fetched_configs

  -- A nil configuration is no error.
  unfoldable pub get_network_config_from_source : Exec W (Option NetworkConfig)
  unfolding request
  get_network_config_from_source = do
    buff ← request provider.get_network_config_endpoint
    answer ← lift (services.unmarshal_config buff)
    lift (carried_or_error answer)

  abbrev pub store :
      Result (Option NetworkConfig) × W
      → BaseProxy
      → Result (Option NetworkConfig) × (BaseProxy × W)
  store (ok configs, w) base = (
    ok configs,
    (record base { last_fetched_time = services.now w; fetched_configs = configs }, w),
  )
  store (other, w) base = (other, (base, w))

  abbrev pub unless_cached :
      Option NetworkConfig
      → Exec (BaseProxy × W) (Option NetworkConfig)
      → Exec (BaseProxy × W) (Option NetworkConfig)
  unless_cached (some configs) fetch = pure (some configs)
  unless_cached none fetch = fetch

  unfoldable pub fetch_configs : Exec (BaseProxy × W) (Option NetworkConfig)
  unfolding get_network_config_from_source
  fetch_configs (base, w) = store (get_network_config_from_source w) base

  -- Under the write lock. Another goroutine may have fetched between the two locks, so the cache is
  -- looked at again.
  unfoldable pub cache_configs : Exec (BaseProxy × W) (Option NetworkConfig)
  unfolding fetch_configs get_cached_configs
  cache_configs (base, w) = unless_cached (get_cached_configs base w) fetch_configs (base, w)

  -- With no other goroutine between the locks.
  unfoldable pub get_network_config : Exec (BaseProxy × W) (Option NetworkConfig)
  unfolding cache_configs get_cached_configs
  get_network_config (base, w) = unless_cached (get_cached_configs base w) cache_configs (base, w)

  -- A nil configuration is a nil dereference.
  abbrev pub shard_in : Bytes → Option NetworkConfig → Result ℕ
  shard_in address none = panic
  shard_in address (some configs) =
      services.compute_shard_id configs.num_shards_without_meta address

  unfoldable pub get_shard_of_address : String → Exec (BaseProxy × W) ℕ
  unfolding get_network_config
  get_shard_of_address bech32_address = do
    address ← lift (services.converter.decode bech32_address)
    configs ← get_network_config
    lift (shard_in address configs)

  unfoldable pub check_received_node_status : ℕ → Option NetworkStatus → Result NetworkStatus
  check_received_node_status shard_id none = err (wrapped "requested" nil_network_status)
  check_received_node_status shard_id (some status) =
      if not provider.should_check_shard_id_for_node_status
      then ok status
      else if status.shard_id == shard_id
      then ok status
      else err (wrapped "requested" shard_id_mismatch)

  unfoldable pub read_status : RestApiEntityType → Bytes → ℕ → Exec W NetworkStatus
  unfolding check_received_node_status
  read_status proxy buff shard_id = do
    answer ← lift (services.unmarshal_network_status buff)
    status ← lift (carried_or_error answer)
    lift (check_received_node_status shard_id status)
  read_status observer_node buff shard_id = do
    answer ← lift (services.unmarshal_node_status buff)
    status ← lift (carried_or_error answer)
    lift (check_received_node_status shard_id status)
  read_status another buff shard_id = raise invalid_endpoint_provider

  unfoldable pub get_network_status : ℕ → Exec W NetworkStatus
  unfolding request read_status
  get_network_status shard_id = do
    buff ← request (provider.get_node_status shard_id)
    read_status provider.get_rest_api_entity_type buff shard_id
