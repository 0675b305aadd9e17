-- ===== src/HeaderCheck.antt =====
-- The folder headerCheck: whether a header, known by its hash, was signed by the validators of its epoch.
-- The proxy, the marshaller, the nodes coordinator and the verifier of the node are parameters; the
-- coordinator is part of the world.
pub mod Epochs
use mx_sdk_erdgo.Prelude.{ℕ, String, Bool, true, false, List, ◌==◌, nat_eq, if◌then◌else◌}
use mx_sdk_erdgo.Prelude.Exec.{Exec, Result, ok, err, panic, ◌>>=◌, ◌>>◌, pure, lift}
use mx_sdk_erdgo.Chain.{Bytes}
use mx_sdk_erdgo.Finality.{metachain_shard_id}

-- A header, by what is read of it.
pub record Header : Type 0 where
  pub epoch : ℕ
  pub prev_rand_seed : Bytes
  pub content : Bytes

-- `V` is the information on a validator.
pub record HeaderServices (V W : Type 0) : Type 0 where
  pub get_raw_block_by_hash : ℕ → String → Exec W Bytes
  pub get_raw_start_of_epoch_meta_block : ℕ → Exec W Bytes
  pub get_validators_info_by_epoch : ℕ → Exec W (List V)
  pub unmarshal_meta_block : Bytes → Result Header
  pub unmarshal_shard_header : Bytes → Result Header
  pub is_epoch_in_config : ℕ → W → Bool
  pub set_nodes_config : ℕ → Bytes → List V → Exec W (Unit {0})
  pub verify_signature : Header → Exec W (Unit {0})

module _ {V W : Type 0} (services : HeaderServices V W) where
  -- rawHeaderHandler
  unfoldable pub get_meta_block_by_hash : String → Exec W Header
  get_meta_block_by_hash hash = do
    block_bytes ← services.get_raw_block_by_hash metachain_shard_id hash
    lift (services.unmarshal_meta_block block_bytes)

  unfoldable pub get_shard_block_by_hash : ℕ → String → Exec W Header
  get_shard_block_by_hash shard_id hash = do
    header_bytes ← services.get_raw_block_by_hash shard_id hash
    lift (services.unmarshal_shard_header header_bytes)

  unfoldable pub get_start_of_epoch_meta_block : ℕ → Exec W Header
  get_start_of_epoch_meta_block epoch = do
    block_bytes ← services.get_raw_start_of_epoch_meta_block epoch
    lift (services.unmarshal_meta_block block_bytes)

  unfoldable pub get_validators_info_per_epoch : ℕ → Exec W (List V × Bytes)
  unfolding get_start_of_epoch_meta_block
  get_validators_info_per_epoch epoch = do
    meta_block ← get_start_of_epoch_meta_block epoch
    validators ← services.get_validators_info_by_epoch epoch
    pure (validators, meta_block.prev_rand_seed)

  -- headerVerifier
  unfoldable pub fetch_header_by_hash_and_shard : ℕ → String → Exec W Header
  unfolding get_meta_block_by_hash get_shard_block_by_hash
  fetch_header_by_hash_and_shard shard_id hash =
      if shard_id == metachain_shard_id
      then get_meta_block_by_hash hash
      else get_shard_block_by_hash shard_id hash

  unfoldable pub update_nodes_config_per_epoch : ℕ → Exec W (Unit {0})
  unfolding get_validators_info_per_epoch
  update_nodes_config_per_epoch epoch = do
    (validators, randomness) ← get_validators_info_per_epoch epoch
    services.set_nodes_config epoch randomness validators

  abbrev pub unless_known : Bool → ℕ → Exec W (Unit {0})
  unless_known true epoch = pure tt
  unless_known false epoch = update_nodes_config_per_epoch epoch

  -- `if !IsEpochInConfig(epoch) { update }`
  unfoldable pub ensure_config : ℕ → Exec W (Unit {0})
  unfolding update_nodes_config_per_epoch
  ensure_config epoch w = unless_known (services.is_epoch_in_config epoch w) epoch w

  unfoldable pub verify_header_signature_by_hash : ℕ → String → Exec W Bool
  unfolding fetch_header_by_hash_and_shard ensure_config
  verify_header_signature_by_hash shard_id hash = do
    header ← fetch_header_by_hash_and_shard shard_id hash
    ensure_config header.epoch
    services.verify_signature header
    pure true
