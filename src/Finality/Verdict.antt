-- ===== src/Finality/Verdict.antt =====
-- When the providers find a shard final.
use mx_sdk_erdgo.Prelude.{
  ℕ, ◌+◌, ◌%◌, ◌<◌, ◌≤◌, ◌≡◌, ◌≢◌, ◌↔◌, refl, ap, ◌∙◌, false, Bool-cases, inl, inr, some, ◌∷◌,
  arith, ltb, leb, ◌==◌, nat_eq,
}
use mx_sdk_erdgo.Prelude.Exec.{Exec, ok}
use mx_sdk_erdgo.Prelude.Success.{differ_err}
use mx_sdk_erdgo.Dict.{Dict, lookup}
use mx_sdk_erdgo.Chain.{u64}
use mx_sdk_erdgo.Finality.{
  NetworkStatus, Nonces, metachain_shard_id, judge_node, judge_proxy, get_nonces,
  node_check_shard_finalization, get_nonces_from_meta_and_shard, judge_shard,
  proxy_check_shard_finalization, extract_nonce_of_shard_id,
}
use mx_sdk_erdgo.Finality.CrossCheck.{
  cross_check_value, or_missing, extract_nonce_of_shard_id-lookup,
}

judge_node-ok :
    (nonces : Nonces) (delta : ℕ)
    → nonces.current + delta < u64
    → nonces.highest + delta < u64
    → (judge_node nonces delta ≡ ok tt)
      ↔ ((nonces.probable ≤ nonces.current + delta) × (nonces.current ≤ nonces.highest + delta))
unfolding judge_node
judge_node-ok nonces delta small small' =
    let exact : (nonces.current + delta) % u64 ≡ nonces.current + delta = omega arith in
    let exact' : (nonces.highest + delta) % u64 ≡ nonces.highest + delta = omega arith in
    rw (exact, exact')
      (elim (Bool-cases (ltb (nonces.current + delta) nonces.probable)) [
        | inl syncing ↦ rw syncing ((λ e. differ_err _ tt e), λ h. ground arith)
        | inr near ↦ rw near (elim (Bool-cases (leb nonces.current (nonces.highest + delta))) [
          | inl synced ↦ rw synced ((λ e. (ground arith, ground arith)), λ h. refl)
          | inr stuck ↦ rw stuck ((λ e. differ_err _ tt e), λ h. ground arith)
        ])
      ])

judge_proxy-ok :
    (from_meta from_shard delta : ℕ)
    → from_meta + delta < u64
    → (judge_proxy from_meta from_shard delta ≡ ok tt)
      ↔ ((from_meta ≤ from_shard) × (from_shard ≤ from_meta + delta))
unfolding judge_proxy
judge_proxy-ok from_meta from_shard delta small =
    let exact : (from_meta + delta) % u64 ≡ from_meta + delta = omega arith in
    rw exact (elim (Bool-cases (ltb from_shard from_meta)) [
      | inl syncing ↦ rw syncing ((λ e. differ_err _ tt e), λ h. ground arith)
      | inr near ↦ rw near (elim (Bool-cases (leb from_shard (from_meta + delta))) [
        | inl synced ↦ rw synced ((λ e. (ground arith, ground arith)), λ h. refl)
        | inr stuck ↦ rw stuck ((λ e. differ_err _ tt e), λ h. ground arith)
      ])
    ])

module _ {W : Type 0} (get_network_status : ℕ → Exec W NetworkStatus) where
  -- With a status that is not empty, and sums below 2^64, the node's provider finds the shard final
  -- exactly if the allowed distance is not 0, the probable nonce is not further ahead of the current
  -- nonce than that, and the current nonce not further ahead of the highest final one.
  node_check_iff :
      (shard delta : ℕ) (w : W) (status : NetworkStatus) (end : W)
      → get_network_status shard w ≡ (ok status, end)
      → 0 < status.nonce
      → status.nonce + delta < u64
      → status.highest_nonce + delta < u64
      → (node_check_shard_finalization get_network_status shard delta w ≡ (ok tt, end)) ↔ (
          (1 ≤ delta)
          × (status.probable_highest_nonce ≤ status.nonce + delta)
          × (status.nonce ≤ status.highest_nonce + delta))
  unfolding node_check_shard_finalization get_nonces
  node_check_iff shard delta w status end answer started small small' =
      let filled : (status.nonce == 0) ≡ false = ground arith in
      let nonces : Nonces = record {
        current = status.nonce;
        highest = status.highest_nonce;
        probable = status.probable_highest_nonce;
      } in
      let (sound, complete) = judge_node-ok nonces delta small small' in
      elim (Bool-cases (ltb delta 1)) [
        | inl zero_delta ↦
            rw zero_delta ((λ e. differ_err _ tt (ap (λ x. x.0) e)), λ h. ground arith)
        | inr some_delta ↦ rw some_delta (
            rw answer (
              rw filled (
                (λ e. let (a, b) = sound (ap (λ x. x.0) e) in (ground arith, a, b)),
                λ h. ap (λ r. (r, end)) (complete (h.1, h.2)),
              )))
      ]

  -- Where the metachain's text gives a nonce for the shard, another than the metachain, and the sum of
  -- nonce and distance is below 2^64, the proxy's provider finds the shard final exactly if the allowed
  -- distance is not 0 and the shard's nonce is not behind the metachain's nor further ahead than that.
  pub proxy_check_iff :
      (shard delta : ℕ) (w : W) (meta : NetworkStatus) (middle : W) (status : NetworkStatus)
      (end : W) (e : ℕ × ℕ) (m : Dict ℕ ℕ) (nonce : ℕ)
      → shard ≢ metachain_shard_id
      → get_network_status metachain_shard_id w ≡ (ok meta, middle)
      → meta.cross_check_block_height ≡ cross_check_value e m
      → lookup (e ∷ m) shard ≡ some nonce
      → get_network_status shard middle ≡ (ok status, end)
      → nonce + delta < u64
      → (proxy_check_shard_finalization get_network_status shard delta w ≡ (ok tt, end))
        ↔ ((1 ≤ delta) × (nonce ≤ status.nonce) × (status.nonce ≤ nonce + delta))
  unfolding proxy_check_shard_finalization judge_shard get_nonces_from_meta_and_shard
  proxy_check_iff shard delta w meta middle status end e m nonce other asked text there answer
        small =
      let differs : (shard == metachain_shard_id) ≡ false = ground arith in
      let exact : nonce % u64 ≡ nonce = omega arith in
      let found : extract_nonce_of_shard_id meta.cross_check_block_height shard ≡ ok nonce =
        ap (λ t. extract_nonce_of_shard_id t shard) text
        ∙ (extract_nonce_of_shard_id-lookup e m shard ∙ (ap or_missing there ∙ ap ok exact)) in
      let (sound, complete) = judge_proxy-ok nonce status.nonce delta small in
      elim (Bool-cases (ltb delta 1)) [
        | inl zero_delta ↦
            rw zero_delta ((λ e. differ_err _ tt (ap (λ x. x.0) e)), λ h. ground arith)
        | inr some_delta ↦ rw some_delta (
            rw differs (
              rw asked (
                rw found (
                  rw answer (
                    (λ e. let (a, b) = sound (ap (λ x. x.0) e) in (ground arith, a, b)),
                    λ h. ap (λ r. (r, end)) (complete (h.1, h.2)),
                  )))))
      ]
