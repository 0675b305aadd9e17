-- ===== src/TxConversion.antt =====
-- builders/txBuilder.go: a transaction without its signatures, and the transaction of the node.
use mx_sdk_erdgo.Prelude.{ℕ, String, string_eq, [], ◌==◌, if◌then◌else◌}
use mx_sdk_erdgo.Prelude.Exec.{Result, ok, plain}
use mx_sdk_erdgo.Prelude.Results.{◌>>=◌, or_fail}
use mx_sdk_erdgo.Chain.{Bytes, FrontendTransaction, PubkeyConverter}
use mx_sdk_erdgo.BigInt.{ℤ, set_string}
use mx_sdk_erdgo.Text.Ascii.{codes}
use mx_sdk_erdgo.Text.Hex.{decode_string}

-- `Transaction` of mx-chain-core-go.
pub record NodeTransaction : Type 0 where
  pub nonce : ℕ
  pub value : ℤ
  pub rcv_addr : Bytes
  pub snd_addr : Bytes
  pub gas_price : ℕ
  pub gas_limit : ℕ
  pub payload : Bytes
  pub chain_id : Bytes
  pub version : ℕ
  pub signature : Bytes
  pub options : ℕ
  pub guardian_addr : Bytes
  pub guardian_signature : Bytes

unfoldable pub transaction_to_unsigned_tx : FrontendTransaction → FrontendTransaction
transaction_to_unsigned_tx tx = record tx { signature = ""; guardian_signature = "" }

-- `hex.DecodeString`
abbrev pub hex_bytes : String → Result Bytes
hex_bytes text = or_fail (plain "encoding/hex: invalid text") (decode_string (codes text))

-- A transaction without the address of a guardian has no bytes of a guardian.
unfoldable pub guardian_parts : PubkeyConverter → FrontendTransaction → Result (Bytes × Bytes)
guardian_parts converter tx = if tx.guardian_addr == "" then ok ([], []) else (do
  address ← converter.decode tx.guardian_addr
  signature ← hex_bytes tx.guardian_signature
  ok (address, signature))

unfoldable pub transaction_to_node_transaction :
    PubkeyConverter → FrontendTransaction → Result NodeTransaction
unfolding decode_string set_string guardian_parts
transaction_to_node_transaction converter tx = do
  receiver ← converter.decode tx.receiver
  sender ← converter.decode tx.sender
  signature ← hex_bytes tx.signature
  value ← or_fail (plain "invalid value") (set_string (codes tx.value))
  (guardian_addr, guardian_signature) ← guardian_parts converter tx
  ok record {
    nonce = tx.nonce;
    value = value;
    rcv_addr = receiver;
    snd_addr = sender;
    gas_price = tx.gas_price;
    gas_limit = tx.gas_limit;
    payload = tx.payload;
    chain_id = codes tx.chain_id;
    version = tx.version;
    signature = signature;
    options = tx.options;
    guardian_addr = guardian_addr;
    guardian_signature = guardian_signature;
  }
