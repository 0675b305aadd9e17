-- ===== src/BaseProxy/Cache.antt =====
-- The configuration that the base proxy keeps.
use mx_sdk_erdgo.Prelude.{
  ◌-◌, ◌^◌, ◌≤◌, ◌<◌, ◌⊎◌, ◌≡◌, refl, sym, ap, ◌∙◌, min, true, false, Bool-cases, inl, inr, Option,
  none, some, arith, ltb,
}
use mx_sdk_erdgo.Prelude.Exec.{Result, ok, err, panic}
use mx_sdk_erdgo.Prelude.Success.{differ_err, differ_panic, ok-injective}
use mx_sdk_erdgo.Chain.{NetworkConfig}
use mx_sdk_erdgo.BaseProxy.{
  BaseProxy, EndpointProvider, Services, get_cached_configs, get_network_config_from_source, store,
  fetch_configs, cache_configs, get_network_config,
}

module _ {W : Type 0} (provider : EndpointProvider) (services : Services W) where
  get_cached_configs-fresh :
      (base : BaseProxy) (w : W)
      → services.now w - base.last_fetched_time ≤ base.cache_expiry_duration
      → get_cached_configs provider services base w ≡ base.fetched_configs
  unfolding get_cached_configs
  get_cached_configs-fresh base w young =
      let fresh : ltb base.cache_expiry_duration
            (min (services.now w - base.last_fetched_time) (2 ^ 63 - 1))
          ≡ false =
        ground arith in
      rw fresh refl

  -- Nothing was fetched, or more time than the expiry has passed since; it is below 2^63.
  abbrev pub IsToBeFetched : BaseProxy → W → Type 0
  IsToBeFetched base w =
      (base.fetched_configs ≡ none)
      ⊎ ((base.cache_expiry_duration < services.now w - base.last_fetched_time)
          × (base.cache_expiry_duration < 2 ^ 63 - 1))

  get_cached_configs-none :
      (base : BaseProxy) (w : W)
      → IsToBeFetched base w
      → get_cached_configs provider services base w ≡ none
  unfolding get_cached_configs
  get_cached_configs-none base w (inl nothing) =
      elim (Bool-cases (
        ltb base.cache_expiry_duration
          (min (services.now w - base.last_fetched_time) (2 ^ 63 - 1)))) [
            | inl old ↦ rw old refl
            | inr fresh ↦ rw fresh nothing
          ]
  get_cached_configs-none base w (inr (old, bound)) =
      let expired : ltb base.cache_expiry_duration
            (min (services.now w - base.last_fetched_time) (2 ^ 63 - 1))
          ≡ true =
        ground arith in
      rw expired refl

  -- What a configuration that was fetched is kept with.
  abbrev stored : BaseProxy → NetworkConfig → W → BaseProxy
  stored base c end = record base { last_fetched_time = services.now end; fetched_configs = some c }

  store-stored :
      (r : Result (Option NetworkConfig) × W) (base : BaseProxy) (c : NetworkConfig)
      (base' : BaseProxy) (end : W)
      → store provider services r base ≡ (ok (some c), (base', end))
      → (r ≡ (ok (some c), end)) × (base' ≡ stored base c end)
  store-stored (ok configs, w) base c base' end e =
      let value = ok-injective configs (some c) (ap (λ x. x.0) e) in
      let world : w ≡ end = ap (λ x. x.1.1) e in
      (rw value (rw world refl), sym (ap (λ x. x.1.0) e) ∙ rw value (rw world refl))
  store-stored (err x, w) base c base' end e = differ_err x (some c) (ap (λ r. r.0) e)
  store-stored (panic, w) base c base' end e = differ_panic (some c) (ap (λ r. r.0) e)

  -- A caller for whom there is nothing in the cache, or only what has expired, and who gets a
  -- configuration, got it by a request. From the end of that request on, until more time than the expiry
  -- has passed, the others hear of it without another request, be they new, or already at the write
  -- lock: they get the same configuration, and leave the world and the base proxy as they are.
  pub cache_configs-kept :
      (base : BaseProxy) (w : W) (c : NetworkConfig) (base' : BaseProxy) (end later : W)
      → IsToBeFetched base w
      → cache_configs provider services (base, w) ≡ (ok (some c), (base', end))
      → services.now later - services.now end ≤ base.cache_expiry_duration
      → (get_network_config_from_source provider services w ≡ (ok (some c), end))
        × (get_network_config provider services (base', later) ≡ (ok (some c), (base', later)))
        × (cache_configs provider services (base', later) ≡ (ok (some c), (base', later)))
  unfolding cache_configs get_network_config fetch_configs
  cache_configs-kept base w c base' end later empty e young =
      let asked : store provider services (get_network_config_from_source provider services w) base
          ≡ (ok (some c), (base', end)) =
        rw (get_cached_configs-none base w empty) at e in
      let (fetched, kept) = store-stored _ base c base' end asked in
      let cached = get_cached_configs-fresh (stored base c end) later young in
      (fetched, rw kept (rw cached refl), rw kept (rw cached refl))
