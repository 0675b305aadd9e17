-- ===== src/HeaderCheck/Epochs.antt =====
-- The validators that a header is verified with.
use mx_sdk_erdgo.Prelude.{
  ℕ, ◌≡◌, sym, ap, ◌∙◌, ◌⊎◌, inl, inr, String, Bool, true, false, Bool-cases,
}
use mx_sdk_erdgo.Prelude.Exec.{ok}
use mx_sdk_erdgo.Prelude.Success.{bind-ok, ok-injective}
use mx_sdk_erdgo.HeaderCheck.{
  Header, HeaderServices, fetch_header_by_hash_and_shard, update_nodes_config_per_epoch,
  unless_known, ensure_config, verify_header_signature_by_hash,
}

module _ {V W : Type 0} (services : HeaderServices V W) where
  config_known :
      (epoch : ℕ) (w end : W)
      → ensure_config services epoch w ≡ (ok tt, end)
      → ((services.is_epoch_in_config epoch w ≡ true) × (w ≡ end))
        ⊎ ((services.is_epoch_in_config epoch w ≡ false)
            × (update_nodes_config_per_epoch services epoch w ≡ (ok tt, end)))
  unfolding ensure_config
  config_known epoch w end run = elim (Bool-cases (services.is_epoch_in_config epoch w)) [
    | inl there ↦
        inl (there, ap (λ r. r.1) (sym (ap (λ b. unless_known services b epoch w) there) ∙ run))
    | inr absent ↦ inr (absent, sym (ap (λ b. unless_known services b epoch w) absent) ∙ run)
  ]

  -- A header whose verification ends well: it was fetched, and its signature was verified, with a
  -- coordinator that has a configuration for its epoch: it had one before, or it took the validators of
  -- that epoch.
  pub verify_header_signature-ok :
      (shard_id : ℕ) (hash : String) (answer : Bool) (w end : W)
      → verify_header_signature_by_hash services shard_id hash w ≡ (ok answer, end)
      → (header : Header) × (fetched : W) × (ready : W) × (fetch_header_by_hash_and_shard services
            shard_id hash w
          ≡ (ok header, fetched))
        × (((services.is_epoch_in_config header.epoch fetched ≡ true) × (fetched ≡ ready))
            ⊎ ((services.is_epoch_in_config header.epoch fetched ≡ false)
                × (update_nodes_config_per_epoch services header.epoch fetched ≡ (ok tt, ready))))
        × (services.verify_signature header ready ≡ (ok tt, end))
        × (answer ≡ true)
  unfolding verify_header_signature_by_hash ensure_config
  verify_header_signature-ok shard_id hash answer w end run =
      let (header, fetched, found, r1) =
        bind-ok (fetch_header_by_hash_and_shard services shard_id hash) _ w answer end run in
      let (known, ready, ensured, r2) =
        bind-ok (ensure_config services header.epoch) _ fetched answer end r1 in
      let (verified, last, checked, r3) =
        bind-ok (services.verify_signature header) _ ready answer end r2 in
      (
        header,
        fetched,
        ready,
        found,
        config_known header.epoch fetched ready ensured,
        checked ∙ ap (λ s. (ok tt, s)) (ap (λ r. r.1) r3),
        sym (ok-injective true answer (ap (λ r. r.0) r3)),
      )
