-- ===== src/TxBuilder/Examples.antt =====
-- A transaction with a guardian, and one that is relayed. A signature is the key and the message.
use mx_sdk_erdgo.Prelude.{◌≡◌, refl, some, [], ◌∷◌, ◌++◌, true, arith}
use mx_sdk_erdgo.Prelude.Exec.{ok}
use mx_sdk_erdgo.Chain.{Account, Bytes, FrontendTransaction, PubkeyConverter}
use mx_sdk_erdgo.ExampleChain.{config}
use mx_sdk_erdgo.Text.Ascii.{codes}
use mx_sdk_erdgo.TxBuilder.{
  CryptoHolder, SigningServices, with_signature, with_guardian_signature, apply_user_signature,
  apply_guardian_signature,
}
use mx_sdk_erdgo.TxBuilder.Signatures.{unsigned_from, Signs, both_sign_same}
use mx_sdk_erdgo.TxBuilder.Relayed.{RelayedTxV2Builder, build_v2}
use mx_sdk_erdgo.TxBuilder.Payload.{Carries, build_v2-Carries}

abbrev converter : PubkeyConverter
converter = record { decode = λ text. ok (9 ∷ []); encode = λ bytes. ok "erd1" }

abbrev services : SigningServices
services = record {
  sign_byte_slice = λ message key. ok (key ++ message);
  marshal = λ tx. ok tx.payload;
  marshal_node = λ tx. ok tx.payload;
  keccak = λ bytes. bytes;
  blake2b = λ bytes. bytes;
  has_option_guardian_set = λ tx. true;
  converter = converter;
}

abbrev user : CryptoHolder
user = record { bech32 = "erd1user"; private_key = 1 ∷ []; public_key = ok (8 ∷ []) }

abbrev guardian : CryptoHolder
guardian = record { bech32 = "erd1guardian"; private_key = 2 ∷ []; public_key = ok (9 ∷ []) }

abbrev plain_tx : FrontendTransaction
plain_tx = record {
  nonce = 5;
  value = "0";
  receiver = "erd1receiver";
  sender = "";
  gas_price = 1;
  gas_limit = 0;
  payload = 7 ∷ [];
  signature = "";
  chain_id = "T";
  version = 1;
  options = 2;
  guardian_addr = "erd1guardian";
  guardian_signature = "";
}

abbrev sent : FrontendTransaction
sent = record plain_tx { sender = "erd1user" }

abbrev signed : FrontendTransaction
signed = with_signature (1 ∷ (7 ∷ [])) sent

abbrev guarded : FrontendTransaction
guarded = with_guardian_signature (2 ∷ (7 ∷ [])) signed

user_signs : apply_user_signature services user plain_tx ≡ (ok tt, signed)
unfolding apply_user_signature
user_signs = refl

guardian_signs : apply_guardian_signature services guardian signed ≡ (ok tt, guarded)
unfolding apply_guardian_signature
guardian_signs = refl

both_sign_same_example :
    (user_signature : Bytes) × (guardian_signature : Bytes) × (key : Bytes) × Signs services user
      (unsigned_from plain_tx user.bech32)
      user_signature
    × Signs services guardian (unsigned_from plain_tx user.bech32) guardian_signature
    × (converter.decode "erd1guardian" ≡ ok key)
    × (guardian.public_key ≡ ok key)
    × (guarded ≡ with_guardian_signature guardian_signature (with_signature user_signature sent))
both_sign_same_example =
    both_sign_same services user guardian plain_tx signed guarded user_signs guardian_signs

abbrev relayer : Account
relayer = record {
  address = "erd1relayer";
  nonce = 11;
  balance = "100";
  code = "";
  code_hash = [];
  root_hash = [];
  code_metadata = [];
  username = "";
  developer_reward = "";
  owner_address = "";
}

abbrev builder : RelayedTxV2Builder
builder = record {
  inner_transaction = some signed;
  gas_limit_needed_for_inner_transaction = 60000;
  relayer_account = some relayer;
  network_config = some config;
}

abbrev relayed : FrontendTransaction
relayed = record {
  nonce = 11;
  value = "0";
  receiver = "erd1user";
  sender = "erd1relayer";
  gas_price = 1;
  gas_limit = 147500;
  payload = codes "relayedTxV2@09@05@07@0107";
  signature = "";
  chain_id = config.chain_id;
  version = config.min_transaction_version;
  options = 0;
  guardian_addr = "";
  guardian_signature = "";
}

built : build_v2 converter builder ≡ ok relayed
unfolding build_v2
built = refl

build_v2-Carries_example : Carries signed relayed (9 ∷ [])
build_v2-Carries_example =
    build_v2-Carries converter builder signed relayed (9 ∷ []) refl built refl (ground arith)
      (omega arith, tt) (omega arith, tt)
