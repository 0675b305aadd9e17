-- ===== src/Chain.antt =====
-- What the components see of the blockchain: the transactions of mx-chain-core-go, by the fields
-- that this library reads or writes, data/account.go, data/networkConfig.go, and the interfaces
-- of interactors/interface.go. A collaborator acts on a world `W` that the program cannot look
-- into, and a section takes it as a parameter.
use mx_sdk_erdgo.Prelude.{ℕ, ◌^◌, String, ◌≡◌, Bool, true, List, Option}
use mx_sdk_erdgo.Prelude.Exec.{Exec, Result, Error}

-- uint64 wraps around at `u64`.
abbrev pub u64 : ℕ
u64 = 2 ^ 64

abbrev pub Bytes : Type 0
Bytes = List ℕ

pub record FrontendTransaction : Type 0 where
  pub nonce : ℕ
  pub value : String
  pub receiver : String
  pub sender : String
  pub gas_price : ℕ
  pub gas_limit : ℕ
  pub payload : Bytes
  pub signature : String
  pub chain_id : String
  pub version : ℕ
  pub options : ℕ
  pub guardian_addr : String
  pub guardian_signature : String

pub record Account : Type 0 where
  pub address : String
  pub nonce : ℕ
  pub balance : String
  pub code : String
  pub code_hash : Bytes
  pub root_hash : Bytes
  pub code_metadata : Bytes
  pub username : String
  pub developer_reward : String
  pub owner_address : String

-- The fields that the modelled components read.
pub record NetworkConfig : Type 0 where
  pub chain_id : String
  pub gas_per_data_byte : ℕ
  pub min_gas_limit : ℕ
  pub min_gas_price : ℕ
  pub min_transaction_version : ℕ
  pub num_shards_without_meta : ℕ

-- An address handler stands for its bytes.
abbrev pub Address : Type 0
Address = Bytes

-- `core.AddressPublicKeyConverter`.
pub record PubkeyConverter : Type 0 where
  pub decode : String → Result Bytes
  pub encode : Bytes → Result String

-- On an error the pointer results are nil, as in blockchain/proxy.go.
pub record Proxy (W : Type 0) : Type 0 where
  pub get_network_config : Exec W NetworkConfig
  pub get_account : Address → Exec W Account
  pub send_transaction : FrontendTransaction → Exec W String
  pub send_transactions : List FrontendTransaction → Exec W (List String)

-- A cancellable `context.Context`: once cancelled it is done.
pub record Context (W : Type 0) : Type 0 where
  pub is_done : W → Bool
  pub cancel : W → W
  pub cancel_done : (w : W) → is_done (cancel w) ≡ true

-- What `GetHTTP` of core/http/clientWrapper.go gives: an error or not, a status code, and the bytes.
pub record Response : Type 0 where
  pub error : Option Error
  pub code : ℕ
  pub buff : Bytes
