-- ===== src/Aggregator/Notifee.antt =====
-- aggregator/notifees/mxNotifee.go: the changes of prices, sent in a transaction to a contract. What it
-- calls is a parameter: the proxy, the nonce handler and the transaction builder.
pub mod Batches
use mx_sdk_erdgo.Prelude.{
  ℕ, ◌+◌, ◌*◌, ◌%◌, String, Option, none, some, ◌⊎◌, inl, inr, List, [], ◌∷◌, length, if◌then◌else◌,
  ltb,
}
use mx_sdk_erdgo.Prelude.Exec.{Exec, Result, ok, err, panic, Error, ◌>>=◌, ◌>>◌, pure, lift, plain}
use mx_sdk_erdgo.Prelude.Results.{or_panic}
use mx_sdk_erdgo.Chain.{Address, Bytes, FrontendTransaction, NetworkConfig, PubkeyConverter, u64}
use mx_sdk_erdgo.BigInt.{ℤ, pos}
use mx_sdk_erdgo.Builders.{
  TxDataBuilder, BuilderError, is_valid, new_tx_data_builder, set_function, add_arg_bytes,
  add_arg_int64, to_data_string,
}
use mx_sdk_erdgo.VmQuery.{error_of}
use mx_sdk_erdgo.Text.Ascii.{codes}
use mx_sdk_erdgo.Workflows.MoveBalance.{to_int64}
use mx_sdk_erdgo.Aggregator.Notifier.{ArgsPriceChanged}

-- The collaborators; the crypto holder has gone into them.
pub record NotifeeServices (W : Type 0) : Type 0 where
  pub get_network_config : Exec W (Option NetworkConfig)
  pub apply_nonce_and_gas_price : FrontendTransaction → Exec W FrontendTransaction
  pub apply_user_signature : FrontendTransaction → Exec W FrontendTransaction
  pub send_transaction : FrontendTransaction → Exec W String
  pub converter : PubkeyConverter

pub record MxNotifee : Type 0 where
  pub contract_address : Address
  pub base_gas_limit : ℕ
  pub gas_limit_for_each : ℕ

-- Arguments that are nil are left out.
unfoldable pub new_mx_notifee : Address → ℕ → ℕ → Result MxNotifee
unfolding is_valid
new_mx_notifee contract base each =
    if is_valid contract
    then (if ltb base 1
        then err (plain "invalid base gas limit")
        else if ltb each 1
        then err (plain "invalid gas limit for each price change")
        else ok record {
          contract_address = contract;
          base_gas_limit = base;
          gas_limit_for_each = each;
        })
    else err (plain "invalid contract address")

abbrev pub function : Bytes
function = codes "submitBatch"

-- The times are not negative.
unfoldable pub add_price_changes : List ArgsPriceChanged → TxDataBuilder → TxDataBuilder
unfolding add_arg_bytes add_arg_int64
add_price_changes [] builder = builder
add_price_changes (change ∷ changes) builder = add_price_changes changes (
    add_arg_int64 (to_int64 change.decimals) (
      add_arg_int64 (to_int64 change.denominated_price) (
        add_arg_int64 (pos change.timestamp)
          (add_arg_bytes change.quote (add_arg_bytes change.base builder)))))

abbrev pub of_builder : Bytes ⊎ BuilderError → Result Bytes
of_builder (inl payload) = ok payload
of_builder (inr e) = err (error_of e)

-- `ToDataBytes` is the text as bytes.
unfoldable pub prepare_tx_data : List ArgsPriceChanged → Result Bytes
unfolding add_price_changes to_data_string set_function new_tx_data_builder
prepare_tx_data changes =
    of_builder
      (to_data_string (add_price_changes changes (set_function function new_tx_data_builder)))

abbrev pub batch_transaction : MxNotifee → ℕ → Bytes → NetworkConfig → String → FrontendTransaction
batch_transaction en number payload configs receiver = record {
  nonce = 0;
  value = "0";
  receiver = receiver;
  sender = "";
  gas_price = configs.min_gas_price;
  gas_limit = (en.base_gas_limit + number * en.gas_limit_for_each) % u64;
  payload = payload;
  signature = "";
  chain_id = configs.chain_id;
  version = 1;
  options = 0;
  guardian_addr = "";
  guardian_signature = "";
}

module _ {W : Type 0} (services : NotifeeServices W) where
  -- A nil configuration is a nil dereference, behind the encoding of the address.
  unfoldable pub price_changed : MxNotifee → List ArgsPriceChanged → Exec W (Unit {0})
  unfolding prepare_tx_data
  price_changed en changes = do
    payload ← lift (prepare_tx_data changes)
    found ← services.get_network_config
    receiver ← lift (services.converter.encode en.contract_address)
    configs ← lift (or_panic found)
    tx ←
        services.apply_nonce_and_gas_price
          (batch_transaction en (length changes) payload configs receiver)
    signed ← services.apply_user_signature tx
    hash ← services.send_transaction signed
    pure tt
