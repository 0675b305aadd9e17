-- ===== src/BaseProxy/Examples.antt =====
-- A base proxy before an API whose clock is the world.
use mx_sdk_erdgo.Prelude.{ℕ, ◌≡◌, refl, inl, none, some, [], arith}
use mx_sdk_erdgo.Prelude.Exec.{ok, err, external}
use mx_sdk_erdgo.ExampleChain.{config}
use mx_sdk_erdgo.BaseProxy.{
  BaseProxy, Services, node_endpoint_provider, request, body_of, get_cached_configs,
  get_network_config_from_source, fetch_configs, cache_configs, get_network_config,
}
use mx_sdk_erdgo.BaseProxy.Cache.{cache_configs-kept}

abbrev small_services : Services ℕ
small_services = record {
  get_http = λ endpoint w. (record { error = none; code = 200; buff = [] }, w);
  unmarshal_config = λ buff. ok record { carried = some config; error = "" };
  unmarshal_network_status = λ buff. err (external "no status");
  unmarshal_node_status = λ buff. err (external "no status");
  converter = record { decode = λ s. ok []; encode = λ bs. ok "" };
  compute_shard_id = λ shards address. ok 0;
  now = λ w. w;
}

abbrev empty_proxy : BaseProxy
empty_proxy = record {
  fetched_configs = none;
  last_fetched_time = 0;
  cache_expiry_duration = 2000000000;
}

abbrev full_proxy : BaseProxy
full_proxy = record {
  fetched_configs = some config;
  last_fetched_time = 7000000000;
  cache_expiry_duration = 2000000000;
}

fetched :
    cache_configs node_endpoint_provider small_services (empty_proxy, 7000000000)
    ≡ (ok (some config), (full_proxy, 7000000000))
unfolding cache_configs fetch_configs get_cached_configs get_network_config_from_source request
    body_of
fetched = refl

cache_configs-kept_example :
    (get_network_config_from_source node_endpoint_provider small_services 7000000000
      ≡ (ok (some config), 7000000000))
    × (get_network_config node_endpoint_provider small_services (full_proxy, 8000000000)
        ≡ (ok (some config), (full_proxy, 8000000000)))
    × (cache_configs node_endpoint_provider small_services (full_proxy, 8000000000)
        ≡ (ok (some config), (full_proxy, 8000000000)))
cache_configs-kept_example =
    cache_configs-kept node_endpoint_provider small_services empty_proxy 7000000000 config
      full_proxy 7000000000 8000000000 (inl refl) fetched (omega arith)
