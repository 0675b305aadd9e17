-- ===== src/Finality/Examples.antt =====
-- A base proxy before an API with three shards, and the verdicts on its answers.
use mx_sdk_erdgo.Prelude.{ℕ, ◌≡◌, ◌↔◌, ◌≤◌, ◌+◌, refl, some, List, [], ◌∷◌, arith, nat_eq}
use mx_sdk_erdgo.Prelude.Exec.{Exec, ok}
use mx_sdk_erdgo.Dict.{lookup}
use mx_sdk_erdgo.Finality.{
  NetworkStatus, metachain_shard_id, proxy_check_shard_finalization, extract_nonce_of_shard_id,
}
use mx_sdk_erdgo.Finality.CrossCheck.{
  cross_check_value, or_missing, extract_nonce_of_shard_id-lookup,
}
use mx_sdk_erdgo.Finality.Verdict.{proxy_check_iff}

abbrev cross_check : List (ℕ × ℕ)
cross_check = (1, 500) ∷ (2, 700) ∷ []

abbrev status_of : ℕ → NetworkStatus
status_of shard_id = record {
  nonce = 702;
  cross_check_block_height = cross_check_value (0, 600) cross_check;
  highest_nonce = 701;
  probable_highest_nonce = 703;
  shard_id = shard_id;
}

abbrev answers : ℕ → Exec ℕ NetworkStatus
answers shard_id requests = (ok (status_of shard_id), requests + 1)

there : lookup ((0, 600) ∷ cross_check) 2 ≡ some 700
unfolding lookup
there = refl

proxy_check_iff_example :
    (proxy_check_shard_finalization answers 2 7 0 ≡ (ok tt, 2))
    ↔ ((1 ≤ 7) × (700 ≤ 702) × (702 ≤ 700 + 7))
proxy_check_iff_example =
    proxy_check_iff answers 2 7 0 (status_of metachain_shard_id) 1 (status_of 2) 2 (0, 600)
      cross_check 700 (λ e. omega arith) refl refl there refl (omega arith)

extract_nonce_of_shard_id-lookup_example :
    extract_nonce_of_shard_id (cross_check_value (0, 600) cross_check) 2
    ≡ or_missing (lookup ((0, 600) ∷ cross_check) 2)
extract_nonce_of_shard_id-lookup_example = extract_nonce_of_shard_id-lookup (0, 600) cross_check 2
