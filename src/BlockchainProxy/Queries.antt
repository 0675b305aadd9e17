-- ===== src/BlockchainProxy/Queries.antt =====
-- blockchain/proxy.go: queries of contracts, and the requests that hand on what the chain answers.
use mx_sdk_erdgo.Prelude.{ℕ, String, Bool, Option, ◌++◌, if◌then◌else◌}
use mx_sdk_erdgo.Prelude.Exec.{Exec, Result, ◌>>=◌, ◌>>◌, pure, call}
use mx_sdk_erdgo.Chain.{Bytes}
use mx_sdk_erdgo.Finality.{metachain_shard_id}
use mx_sdk_erdgo.VmQuery.{VmValueRequest, VmOutput}
use mx_sdk_erdgo.BaseProxy.{BaseProxy}
use mx_sdk_erdgo.Text.Ascii.{codes}
use mx_sdk_erdgo.Endpoints.{
  network_economics, ratings_config, enable_epochs_config, genesis_nodes_config, vm_values,
  transaction_status, transaction_info, hyper_block_by_nonce, hyper_block_by_hash,
  raw_start_of_epoch_meta_block, raw_start_of_epoch_validators,
}
use mx_sdk_erdgo.BlockchainProxy.{
  BlockchainProxy, Reply, fetch, post_json, check_final_state, network_status_of,
}

-- `VmValueRequestWithOptionalParameters` of data/vmValues.go.
pub record VmValueRequestWithOptionalParameters : Type 0 where
  pub vm_value_request : VmValueRequest
  pub same_sc_state : Bool
  pub should_be_synced : Bool

module _ {W : Type 0} (ep : BlockchainProxy W) where
  unfoldable pub execute_vm_query :
      (VmValueRequestWithOptionalParameters → Result Bytes)
      → (Bytes → Result (Reply (Option VmOutput)))
      → VmValueRequest
      → Exec (BaseProxy × W) (Option VmOutput)
  unfolding check_final_state post_json
  execute_vm_query marshal unmarshal vm_request = do
    check_final_state ep vm_request.address
    call (
        post_json ep unmarshal vm_values (
          marshal record {
            vm_value_request = vm_request;
            same_sc_state = ep.same_sc_state;
            should_be_synced = ep.should_be_synced;
          }))

  unfoldable pub get_latest_hyper_block_nonce : Exec W ℕ
  get_latest_hyper_block_nonce = do
    status ← network_status_of ep metachain_shard_id
    pure status.nonce

  module _ {A : Type 0} (unmarshal : Bytes → Result (Reply A)) where
    unfoldable pub get_network_economics : Exec W A
    unfolding fetch
    get_network_economics = fetch ep unmarshal network_economics

    unfoldable pub get_ratings_config : Exec W A
    unfolding fetch
    get_ratings_config = fetch ep unmarshal ratings_config

    unfoldable pub get_enable_epochs_config : Exec W A
    unfolding fetch
    get_enable_epochs_config = fetch ep unmarshal enable_epochs_config

    unfoldable pub get_genesis_nodes_pub_keys : Exec W A
    unfolding fetch
    get_genesis_nodes_pub_keys = fetch ep unmarshal genesis_nodes_config

    unfoldable pub get_validators_info_by_epoch : ℕ → Exec W A
    unfolding fetch
    get_validators_info_by_epoch epoch = fetch ep unmarshal (raw_start_of_epoch_validators epoch)

    unfoldable pub get_transaction_status : String → Exec W A
    unfolding fetch
    get_transaction_status hash = fetch ep unmarshal (transaction_status hash)

    unfoldable pub get_transaction_info : String → Bool → Exec W A
    unfolding fetch
    get_transaction_info hash with_results = fetch ep unmarshal (
        if with_results
        then transaction_info hash ++ codes "?withResults=true"
        else transaction_info hash)

    unfoldable pub get_hyper_block_by_nonce : ℕ → Exec W A
    unfolding fetch
    get_hyper_block_by_nonce nonce = fetch ep unmarshal (hyper_block_by_nonce nonce)

    unfoldable pub get_hyper_block_by_hash : String → Exec W A
    unfolding fetch
    get_hyper_block_by_hash hash = fetch ep unmarshal (hyper_block_by_hash hash)

    unfoldable pub get_raw_block_by_hash : ℕ → String → Exec W A
    unfolding fetch
    get_raw_block_by_hash shard_id hash =
        fetch ep unmarshal (ep.endpoints.get_raw_block_by_hash shard_id hash)

    unfoldable pub get_raw_block_by_nonce : ℕ → ℕ → Exec W A
    unfolding fetch
    get_raw_block_by_nonce shard_id nonce =
        fetch ep unmarshal (ep.endpoints.get_raw_block_by_nonce shard_id nonce)

    unfoldable pub get_raw_start_of_epoch_meta_block : ℕ → Exec W A
    unfolding fetch
    get_raw_start_of_epoch_meta_block epoch =
        fetch ep unmarshal (raw_start_of_epoch_meta_block epoch)

    unfoldable pub get_raw_mini_block_by_hash : ℕ → String → ℕ → Exec W A
    unfolding fetch
    get_raw_mini_block_by_hash shard_id hash epoch =
        fetch ep unmarshal (ep.endpoints.get_raw_mini_block_by_hash shard_id hash epoch)
