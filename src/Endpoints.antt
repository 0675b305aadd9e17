-- ===== src/Endpoints.antt =====
-- The folder blockchain/endpointProviders: where a request goes, below the address of the node or the
-- proxy. The methods that the base proxy calls are the fields of its `EndpointProvider`.
use mx_sdk_erdgo.Prelude.{ℕ, String, Bool, true, false, Option, none, some, List, [], ◌∷◌, ◌++◌}
use mx_sdk_erdgo.Prelude.Exec.{Result, ok, err, wrapped, plain}
use mx_sdk_erdgo.Chain.{Bytes}
use mx_sdk_erdgo.BigInt.{pos}
use mx_sdk_erdgo.Text.{join}
use mx_sdk_erdgo.Text.Ascii.{codes}
use mx_sdk_erdgo.Text.Hex.{encode_to_string}
use mx_sdk_erdgo.Text.Decimal.{format_int}
use mx_sdk_erdgo.BaseProxy.{
  EndpointProvider, RestApiEntityType, observer_node, proxy, another, node_endpoint_provider,
  proxy_endpoint_provider,
}

-- `%d` of a number, and `%s` of an ASCII text.
abbrev pub number : ℕ → Bytes
number n = format_int (pos n)

-- The provider of the base proxy, and the paths that only one of the two providers puts the shard in.
pub record BlockEndpoints : Type 0 where
  pub provider : EndpointProvider
  pub get_raw_block_by_hash : ℕ → String → Bytes
  pub get_raw_block_by_nonce : ℕ → ℕ → Bytes
  pub get_raw_mini_block_by_hash : ℕ → String → ℕ → Bytes
  pub get_block_by_nonce : ℕ → ℕ → Bytes
  pub get_block_by_hash : ℕ → Bytes → Bytes

abbrev pub node_block_endpoints : BlockEndpoints
node_block_endpoints = record {
  provider = node_endpoint_provider;
  get_raw_block_by_hash = λ shard hash. codes "internal/raw/block/by-hash/" ++ codes hash;
  get_raw_block_by_nonce = λ shard nonce. codes "internal/raw/block/by-nonce/" ++ number nonce;
  get_raw_mini_block_by_hash = λ shard hash epoch.
      codes "internal/raw/miniblock/by-hash/" ++ (codes hash ++ (codes "/epoch/" ++ number epoch));
  get_block_by_nonce = λ shard nonce. codes "block/by-nonce/" ++ number nonce;
  get_block_by_hash = λ shard hash. codes "block/by-hash/" ++ hash;
}

abbrev pub proxy_block_endpoints : BlockEndpoints
proxy_block_endpoints = record {
  provider = proxy_endpoint_provider;
  get_raw_block_by_hash = λ shard hash.
      codes "internal/" ++ (number shard ++ (codes "/raw/block/by-hash/" ++ codes hash));
  get_raw_block_by_nonce = λ shard nonce.
      codes "internal/" ++ (number shard ++ (codes "/raw/block/by-nonce/" ++ number nonce));
  get_raw_mini_block_by_hash = λ shard hash epoch.
      codes "internal/"
      ++ (number shard
          ++ (codes "/raw/miniblock/by-hash/"
              ++ (codes hash ++ (codes "/epoch/" ++ number epoch))));
  get_block_by_nonce =
      λ shard nonce. codes "block/" ++ (number shard ++ (codes "/by-nonce/" ++ number nonce));
  get_block_by_hash = λ shard hash. codes "block/" ++ (number shard ++ (codes "/by-hash/" ++ hash));
}

-- blockchain/factory
unfoldable pub create_endpoint_provider : RestApiEntityType → Result BlockEndpoints
create_endpoint_provider observer_node = ok node_block_endpoints
create_endpoint_provider proxy = ok proxy_block_endpoints
create_endpoint_provider another = err (wrapped "" (plain "unknown REST API entity type"))

-- The methods of `baseEndpointProvider`.
abbrev pub network_economics : Bytes
network_economics = codes "network/economics"

abbrev pub ratings_config : Bytes
ratings_config = codes "network/ratings"

abbrev pub enable_epochs_config : Bytes
enable_epochs_config = codes "network/enable-epochs"

abbrev pub cost_transaction : Bytes
cost_transaction = codes "transaction/cost"

abbrev pub send_transaction_path : Bytes
send_transaction_path = codes "transaction/send"

abbrev pub send_multiple_transactions : Bytes
send_multiple_transactions = codes "transaction/send-multiple"

abbrev pub vm_values : Bytes
vm_values = codes "vm-values/query"

abbrev pub genesis_nodes_config : Bytes
genesis_nodes_config = codes "network/genesis-nodes"

abbrev pub account : String → Bytes
account address = codes "address/" ++ codes address

abbrev pub transaction_info : String → Bytes
transaction_info hash = codes "transaction/" ++ codes hash

abbrev pub transaction_status : String → Bytes
transaction_status hash = transaction_info hash ++ codes "/status"

abbrev pub processed_transaction_status : String → Bytes
processed_transaction_status hash = transaction_info hash ++ codes "/process-status"

abbrev pub hyper_block_by_nonce : ℕ → Bytes
hyper_block_by_nonce nonce = codes "hyperblock/by-nonce/" ++ number nonce

abbrev pub hyper_block_by_hash : String → Bytes
hyper_block_by_hash hash = codes "hyperblock/by-hash/" ++ codes hash

abbrev pub raw_start_of_epoch_meta_block : ℕ → Bytes
raw_start_of_epoch_meta_block epoch =
    codes "internal/raw/startofepoch/metablock/by-epoch/" ++ number epoch

abbrev pub raw_start_of_epoch_validators : ℕ → Bytes
raw_start_of_epoch_validators epoch =
    codes "internal/json/startofepoch/validators/by-epoch/" ++ number epoch

abbrev pub esdt : String → String → Bytes
esdt address token_identifier = account address ++ (codes "/esdt/" ++ codes token_identifier)

abbrev pub nft : String → String → ℕ → Bytes
nft address token_identifier nonce =
    account address
    ++ (codes "/nft/" ++ (codes token_identifier ++ (codes "/nonce/" ++ number nonce)))

abbrev pub guardian_data : String → Bytes
guardian_data address = account address ++ codes "/guardian-data"

abbrev pub is_data_trie_migrated_path : String → Bytes
is_data_trie_migrated_path address = account address ++ codes "/is-data-trie-migrated"

-- `AccountQueryOptions` of mx-chain-core-go.
pub record AccountQueryOptions : Type 0 where
  pub on_final_block : Bool
  pub on_start_of_epoch : Option ℕ
  pub block_nonce : Option ℕ
  pub block_hash : Bytes
  pub block_root_hash : Bytes
  pub hint_epoch : Option ℕ

abbrev pub of_number : Bytes → Option ℕ → List Bytes
of_number name none = []
of_number name (some n) = (name ++ number n) ∷ []

abbrev pub of_hash : Bytes → Bytes → List Bytes
of_hash name [] = []
of_hash name (b ∷ bs) = (name ++ encode_to_string (b ∷ bs)) ∷ []

abbrev pub of_flag : Bytes → Bool → List Bytes
of_flag name false = []
of_flag name true = (name ++ codes "true") ∷ []

-- `Values.Encode` sorts the parameters by their names.
abbrev pub url_parameters : AccountQueryOptions → List Bytes
url_parameters options =
    of_hash (codes "blockHash=") options.block_hash
    ++ (of_number (codes "blockNonce=") options.block_nonce
        ++ (of_hash (codes "blockRootHash=") options.block_root_hash
            ++ (of_number (codes "hintEpoch=") options.hint_epoch
                ++ (of_flag (codes "onFinalBlock=") options.on_final_block
                    ++ of_number (codes "onStartOfEpoch=") options.on_start_of_epoch))))

abbrev pub with_parameters : Bytes → List Bytes → Bytes
with_parameters path [] = path
with_parameters path (p ∷ ps) = path ++ (63 ∷ join 38 (p ∷ ps))

-- core/api.go, for a path without a byte that `url.URL` escapes.
unfoldable pub build_url_with_account_query_options : Bytes → AccountQueryOptions → Bytes
unfolding join
build_url_with_account_query_options path options = with_parameters path (url_parameters options)
