-- ===== src/Workflows/MoveBalance/Examples.antt =====
-- An account with a balance of 90000000; the world is the last transaction that was added.
use mx_sdk_erdgo.Prelude.{◌≡◌, refl, ◌⊎◌, Option, none, some, true, false, [], ◌∷◌, arith}
use mx_sdk_erdgo.Prelude.Exec.{ok, ◌>>=◌, lift}
use mx_sdk_erdgo.Chain.{FrontendTransaction}
use mx_sdk_erdgo.BigInt.{pos, is_less, set_string}
use mx_sdk_erdgo.ExampleChain.{config}
use mx_sdk_erdgo.Text.Ascii.{codes}
use mx_sdk_erdgo.Workflows.MoveBalance.{
  Collaborators, MoveBalanceHandler, sign_and_add, generate_transaction,
}
use mx_sdk_erdgo.Workflows.MoveBalance.Values.{Empties, generate_transaction-Empties}

abbrev default_tx : FrontendTransaction
default_tx = record {
  nonce = 5;
  value = "";
  receiver = "";
  sender = "erd1sender";
  gas_price = 1000;
  gas_limit = 50000;
  payload = [];
  signature = "";
  chain_id = "T";
  version = 1;
  options = 0;
  guardian_addr = "";
  guardian_signature = "";
}

abbrev others : Collaborators (Option FrontendTransaction)
others = record {
  decode_address = λ text. ok (7 ∷ []);
  get_network_config = λ w. (ok (some config), w);
  get_default_transaction_arguments = λ address configs w. (ok (default_tx, "90000000"), w);
  private_key_of = λ address. 1 ∷ [];
  new_crypto_holder = λ key. ok key;
  apply_user_signature = λ holder tx w. (ok (record tx { signature = "aa" }), w);
  add_transaction = λ tx w. (ok tt, some tx);
}

abbrev handler : MoveBalanceHandler
handler = record {
  cached_net_configs = some config;
  receiver_address = "erd1hot";
  minimum_balance = pos 60000000;
}

balance_read : set_string (codes "90000000") ≡ some (pos 90000000)
unfolding set_string
balance_read = refl

added :
    generate_transaction others handler "erd1sender" none
    ≡ (ok tt, some record default_tx { value = "40000000"; receiver = "erd1hot"; signature = "aa" })
unfolding generate_transaction
added = refl

generate_transaction-Empties_example :
    ((is_less (pos 90000000) (pos 60000000) ≡ true)
      × (generate_transaction others handler "erd1sender" none ≡ (ok tt, none)))
    ⊎ ((is_less (pos 90000000) (pos 60000000) ≡ false)
        × ((sent : FrontendTransaction) × Empties handler config default_tx sent 90000000
            × (generate_transaction others handler "erd1sender" none
                ≡ (lift (others.new_crypto_holder (1 ∷ [])) >>= λ holder.
                      sign_and_add others holder sent)
                    none)))
generate_transaction-Empties_example =
    generate_transaction-Empties others handler "erd1sender" (7 ∷ []) config default_tx "90000000"
      90000000 none none refl refl refl balance_read (omega arith) (omega arith)
