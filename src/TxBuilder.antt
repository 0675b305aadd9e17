-- ===== src/TxBuilder.antt =====
-- builders/txBuilder.go: the signatures and the hash of a transaction.
pub mod Signatures
pub mod Relayed
pub mod Payload
pub mod Examples
use mx_sdk_erdgo.Prelude.{
  ℕ, ◌%◌, String, string_eq, Bool, true, false, not, ◌&&◌, Option, none, some, List, [], ltb, leb,
  ◌==◌, nat_eq, bytes_eq, if◌then◌else◌,
}
use mx_sdk_erdgo.Prelude.Exec.{
  Exec, Result, ok, err, panic, Error, ◌>>=◌, ◌>>◌, pure, lift, fail_if, plain,
}
use mx_sdk_erdgo.Chain.{Bytes, FrontendTransaction, PubkeyConverter}
use mx_sdk_erdgo.Text.Ascii.{ascii_text}
use mx_sdk_erdgo.Text.Hex.{encode_to_string}
use mx_sdk_erdgo.TxConversion.{
  NodeTransaction, transaction_to_unsigned_tx, transaction_to_node_transaction,
}

-- `CryptoComponentsHolder`, by what is read of it.
pub record CryptoHolder : Type 0 where
  pub bech32 : String
  pub private_key : Bytes
  pub public_key : Result Bytes

-- What the builder calls: the signer, by message and key; JSON and the node's marshaller; the hashes; and
-- the converter of addresses.
pub record SigningServices : Type 0 where
  pub sign_byte_slice : Bytes → Bytes → Result Bytes
  pub marshal : FrontendTransaction → Result Bytes
  pub marshal_node : NodeTransaction → Result Bytes
  pub keccak : Bytes → Bytes
  pub blake2b : Bytes → Bytes
  pub has_option_guardian_set : NodeTransaction → Bool
  pub converter : PubkeyConverter

abbrev pub with_signature : Bytes → FrontendTransaction → FrontendTransaction
with_signature signature tx = record tx { signature = ascii_text (encode_to_string signature) }

abbrev pub with_guardian_signature : Bytes → FrontendTransaction → FrontendTransaction
with_guardian_signature signature tx = record tx {
  guardian_signature = ascii_text (encode_to_string signature);
}

module _ (services : SigningServices) where
  abbrev pub hashed_if : Bool → Bytes → Bytes
  hashed_if b message = if b then services.keccak message else message

  -- `Options&1 > 0`: the lowest bit.
  abbrev pub as_signed : FrontendTransaction → Bytes → Bytes
  as_signed unsigned_tx message =
      hashed_if (leb 2 unsigned_tx.version && (unsigned_tx.options % 2 == 1)) message

  unfoldable pub sign_tx : FrontendTransaction → CryptoHolder → Exec FrontendTransaction Bytes
  sign_tx unsigned_tx holder = do
    message ← lift (services.marshal unsigned_tx)
    lift (services.sign_byte_slice (as_signed unsigned_tx message) holder.private_key)

  -- The transaction is changed in place: the sender stays written where the signing fails.
  unfoldable pub sign_as_user : CryptoHolder → Exec FrontendTransaction (Unit {0})
  unfolding sign_tx transaction_to_unsigned_tx
  sign_as_user holder tx =
      (do
        signature ← sign_tx (transaction_to_unsigned_tx tx) holder
        (λ t. (ok tt, with_signature signature t)))
        tx

  unfoldable pub apply_user_signature : CryptoHolder → Exec FrontendTransaction (Unit {0})
  unfolding sign_as_user
  apply_user_signature holder tx = sign_as_user holder (record tx { sender = holder.bech32 })

  unfoldable pub sign_as_guardian : CryptoHolder → Exec FrontendTransaction (Unit {0})
  unfolding sign_tx transaction_to_unsigned_tx
  sign_as_guardian holder tx =
      (do
        signature ← sign_tx (transaction_to_unsigned_tx tx) holder
        (λ t. (ok tt, with_guardian_signature signature t)))
        tx

  unfoldable pub apply_guardian_signature : CryptoHolder → Exec FrontendTransaction (Unit {0})
  unfolding transaction_to_node_transaction sign_as_guardian
  apply_guardian_signature holder tx =
      (do
        node_tx ← lift (transaction_to_node_transaction services.converter tx)
        fail_if (not (services.has_option_guardian_set node_tx))
            (plain "guardian flag is missing in the option field")
        address ← lift (services.converter.decode tx.guardian_addr)
        public_key ← lift holder.public_key
        fail_if (not (address == public_key))
            (plain "configured guardian does not match signing guardian")
        sign_as_guardian holder)
        tx

  unfoldable pub compute_tx_hash : Exec FrontendTransaction Bytes
  unfolding transaction_to_node_transaction
  compute_tx_hash tx =
      (do
        fail_if (tx.signature == "")
            (plain "missing signature when computing the transaction's hash")
        node_tx ← lift (transaction_to_node_transaction services.converter tx)
        tx_bytes ← lift (services.marshal_node node_tx)
        pure (services.blake2b tx_bytes))
        tx
