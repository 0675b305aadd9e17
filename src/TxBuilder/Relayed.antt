-- ===== src/TxBuilder/Relayed.antt =====
-- builders/relayedTxV1Builder.go and builders/relayedTxV2Builder.go: a transaction wrapped in the
-- transaction of a relayer. The setters write one field each.
use mx_sdk_erdgo.Prelude.{
  ℕ, ◌+◌, ◌*◌, ◌%◌, String, string_eq, Bool, not, Option, none, some, List, [], ◌∷◌, ◌++◌, length,
  ◌==◌, nat_eq, if◌then◌else◌,
}
use mx_sdk_erdgo.Prelude.Exec.{Result, ok, err, plain}
use mx_sdk_erdgo.Prelude.Results.{◌>>=◌, or_fail}
use mx_sdk_erdgo.Chain.{Account, Bytes, FrontendTransaction, NetworkConfig, PubkeyConverter, u64}
use mx_sdk_erdgo.BigInt.{pos, set_string}
use mx_sdk_erdgo.Builders.{big_int_bytes}
use mx_sdk_erdgo.Text.{join}
use mx_sdk_erdgo.Text.Ascii.{codes, ascii_text}
use mx_sdk_erdgo.Text.Decimal.{format_int}
use mx_sdk_erdgo.Text.Hex.{encode_to_string}
use mx_sdk_erdgo.TxConversion.{NodeTransaction, hex_bytes}

pub record RelayedTxV1Builder : Type 0 where
  pub inner_transaction : Option FrontendTransaction
  pub relayer_account : Option Account
  pub network_config : Option NetworkConfig

pub record RelayedTxV2Builder : Type 0 where
  pub inner_transaction : Option FrontendTransaction
  pub gas_limit_needed_for_inner_transaction : ℕ
  pub relayer_account : Option Account
  pub network_config : Option NetworkConfig

abbrev pub new_relayed_tx_v1_builder : RelayedTxV1Builder
new_relayed_tx_v1_builder = record {
  inner_transaction = none;
  relayer_account = none;
  network_config = none;
}

abbrev pub new_relayed_tx_v2_builder : RelayedTxV2Builder
new_relayed_tx_v2_builder = record {
  inner_transaction = none;
  gas_limit_needed_for_inner_transaction = 0;
  relayer_account = none;
  network_config = none;
}

abbrev pub unless : Bool → String → Result (Unit {0})
unless b text = if b then ok tt else err (plain text)

-- The checks that both builders make first.
unfoldable pub checked_inner : Option FrontendTransaction → Result FrontendTransaction
checked_inner none = err (plain "nil inner transaction")
checked_inner (some tx) =
    if tx.signature == "" then err (plain "nil inner transaction signature") else ok tx

-- The transaction of the relayer, with what a uint64 keeps of the gas limit.
abbrev pub relayed_tx :
    FrontendTransaction → Account → NetworkConfig → String → Bytes → ℕ → FrontendTransaction
relayed_tx inner relayer config value payload gas_limit = record {
  nonce = relayer.nonce;
  value = value;
  receiver = inner.sender;
  sender = relayer.address;
  gas_price = inner.gas_price;
  gas_limit = (config.min_gas_limit + config.gas_per_data_byte * length payload + gas_limit) % u64;
  payload = payload;
  signature = "";
  chain_id = config.chain_id;
  version = config.min_transaction_version;
  options = 0;
  guardian_addr = "";
  guardian_signature = "";
}

module _ (converter : PubkeyConverter) where
  -- The inner transaction as that of the node, without the parts of a guardian. `marshal` is JSON.
  unfoldable pub prepare_inner_tx_for_relay_v1 :
      (NodeTransaction → Result Bytes) → FrontendTransaction → Result Bytes
  unfolding set_string
  prepare_inner_tx_for_relay_v1 marshal tx = do
    value ← or_fail (plain "invalid value") (set_string (codes tx.value))
    receiver ← converter.decode tx.receiver
    sender ← converter.decode tx.sender
    signature ← hex_bytes tx.signature
    serialized ← marshal record {
      nonce = tx.nonce;
      value = value;
      rcv_addr = receiver;
      snd_addr = sender;
      gas_price = tx.gas_price;
      gas_limit = tx.gas_limit;
      payload = tx.payload;
      chain_id = codes tx.chain_id;
      version = tx.version;
      signature = signature;
      options = tx.options;
      guardian_addr = [];
      guardian_signature = [];
    }
    ok (encode_to_string serialized)

  unfoldable pub build_v1 :
      (NodeTransaction → Result Bytes) → RelayedTxV1Builder → Result FrontendTransaction
  unfolding checked_inner prepare_inner_tx_for_relay_v1 format_int
  build_v1 marshal rtb = do
    inner ← checked_inner rtb.inner_transaction
    relayer ← or_fail (plain "nil relayer account") rtb.relayer_account
    config ← or_fail (plain "nil network config") rtb.network_config
    inner_tx_hex ← prepare_inner_tx_for_relay_v1 marshal inner
    value ← or_fail (plain "invalid value") (set_string (codes inner.value))
    ok (
        relayed_tx inner relayer config (ascii_text (format_int value))
          (codes "relayedTx@" ++ inner_tx_hex) inner.gas_limit)

  -- The receiver, the nonce and the data in hexadecimal, and the signature, which is hexadecimal.
  unfoldable pub prepare_inner_tx_for_relay_v2 : FrontendTransaction → Result (List Bytes)
  unfolding big_int_bytes
  prepare_inner_tx_for_relay_v2 tx = do
    receiver ← converter.decode tx.receiver
    ok (
        encode_to_string receiver
        ∷ (encode_to_string (big_int_bytes (pos tx.nonce))
            ∷ (encode_to_string tx.payload ∷ (codes tx.signature ∷ []))))

  unfoldable pub build_v2 : RelayedTxV2Builder → Result FrontendTransaction
  unfolding checked_inner prepare_inner_tx_for_relay_v2 join
  build_v2 rtb = do
    inner ← checked_inner rtb.inner_transaction
    relayer ← or_fail (plain "nil relayer account") rtb.relayer_account
    config ← or_fail (plain "nil network config") rtb.network_config
    _ ←
        unless (not (rtb.gas_limit_needed_for_inner_transaction == 0))
          "invalid gas limit needed for inner transaction"
    _ ← unless (inner.gas_limit == 0) "gas limit of the inner transaction should be 0"
    parts ← prepare_inner_tx_for_relay_v2 inner
    ok (
        relayed_tx inner relayer config "0" (join 64 (codes "relayedTxV2" ∷ parts))
          rtb.gas_limit_needed_for_inner_transaction)
