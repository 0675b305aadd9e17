-- ===== src/BlockchainProxy/Construction.antt =====
-- The constructor of blockchain/proxy.go, and `CreateFinalityProvider` of blockchain/factory.
use mx_sdk_erdgo.Prelude.{ℕ, Bool, true, false, ◌&&◌, Option, none, some, if◌then◌else◌}
use mx_sdk_erdgo.Prelude.Exec.{Result, ok, err, wrapped, plain}
use mx_sdk_erdgo.Prelude.Results.{◌>>=◌}
use mx_sdk_erdgo.Chain.{Bytes, Response}
use mx_sdk_erdgo.BigInt.{ℤ, pos, is_less}
use mx_sdk_erdgo.Finality.{min_allowed_delta_to_final}
use mx_sdk_erdgo.BaseProxy.{
  BaseProxy, Services, RestApiEntityType, observer_node, proxy, another, new_base_proxy,
}
use mx_sdk_erdgo.Endpoints.{create_endpoint_provider}
use mx_sdk_erdgo.BlockchainProxy.{
  BlockchainProxy, BlockDataCache, disabled_block_data_cache, FinalityProvider,
  disabled_finality_provider, node_finality_provider, proxy_finality_provider,
}

pub record ArgsProxy (W : Type 0) : Type 0 where
  pub same_sc_state : Bool
  pub should_be_synced : Bool
  pub finality_check : Bool
  pub allowed_delta_to_final : ℤ
  pub cache_expiration_time : ℕ
  pub entity_type : RestApiEntityType
  pub filter_query_block_cacher : Option (BlockDataCache W)

abbrev pub or_disabled : {W : Type 0} → Option (BlockDataCache W) → BlockDataCache W
or_disabled none = disabled_block_data_cache
or_disabled (some cacher) = cacher

unfoldable pub check_args_proxy : {W : Type 0} → ArgsProxy W → Result (Unit {0})
check_args_proxy args =
    if args.finality_check && is_less args.allowed_delta_to_final (pos min_allowed_delta_to_final)
    then err (wrapped "provided" (plain "invalid allowed delta to final value"))
    else ok tt

-- `CreateFinalityProvider` of blockchain/factory.
unfoldable pub create_finality_provider : RestApiEntityType → Bool → Result FinalityProvider
create_finality_provider entity_type false = ok disabled_finality_provider
create_finality_provider observer_node true = ok node_finality_provider
create_finality_provider proxy true = ok proxy_finality_provider
create_finality_provider another true = err (wrapped "" (plain "unknown REST API entity type"))

unfoldable pub new_proxy :
    {W : Type 0}
    → Services W
    → (Bytes → Bytes → W → Response × W)
    → ArgsProxy W
    → Result (BlockchainProxy W × BaseProxy)
unfolding check_args_proxy create_endpoint_provider new_base_proxy create_finality_provider
new_proxy services post_http args = do
  _ ← check_args_proxy args
  endpoints ← create_endpoint_provider args.entity_type
  base ← new_base_proxy args.cache_expiration_time
  finality_provider ←
      create_finality_provider endpoints.provider.get_rest_api_entity_type args.finality_check
  ok (
    record {
      endpoints = endpoints;
      services = services;
      post_http = post_http;
      same_sc_state = args.same_sc_state;
      should_be_synced = args.should_be_synced;
      finality_check = args.finality_check;
      allowed_delta_to_final = args.allowed_delta_to_final;
      finality_provider = finality_provider;
      filter_query_block_cacher = or_disabled args.filter_query_block_cacher;
    },
    base,
  )
