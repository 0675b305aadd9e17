-- ===== src/NonceHandlerV3/Examples.antt =====
-- The theorems on the nonce handler for lists of transactions at concrete inputs, and tests.
use mx_sdk_erdgo.Prelude.{◌≡◌, refl, [], ◌∷◌, arith}
use mx_sdk_erdgo.Prelude.Exec.{external}
use mx_sdk_erdgo.ExampleChain.{World, world, account, config, proxy, alice, tx_of}
use mx_sdk_erdgo.Chain.{Proxy}
use mx_sdk_erdgo.Prelude.Exec.{ok, err}
use mx_sdk_erdgo.NonceHandlerV3.{AddressNonceHandler, no_nonce}
use mx_sdk_erdgo.NonceHandlerV3.Nonces.{Applies, apply_fetched}
use mx_sdk_erdgo.NonceHandlerV3.Transactions.{
  group_of, sent_by, filter_transactions_by_sender_address, group_of-filter,
}

-- A proxy whose configuration never fails, and one where it always does.
abbrev steady : Proxy World
steady = record {
  get_network_config = λ w. (ok config, w);
  get_account = λ a w. (ok (account w.account_nonce), w);
  send_transaction = proxy.send_transaction;
  send_transactions = proxy.send_transactions;
}

abbrev failing : Proxy World
failing = record {
  get_network_config = λ w. (err (external "no configuration"), w);
  get_account = steady.get_account;
  send_transaction = proxy.send_transaction;
  send_transactions = proxy.send_transactions;
}

abbrev fresh : AddressNonceHandler
fresh = record { address = alice; nonce = no_nonce; gas_price = 0 }

abbrev at_five : AddressNonceHandler
at_five = record { address = alice; nonce = 5; gas_price = 0 }

apply_fetched_example :
    Applies steady config (λ w. refl) 2 (tx_of 0 "1" ∷ tx_of 0 "2" ∷ []) 3 fresh (world 2)
apply_fetched_example =
    apply_fetched steady config (λ w. refl) (tx_of 0 "1") (tx_of 0 "2" ∷ []) fresh (world 2)
      (world 2) (account 2) refl refl (omega arith)

group_of-filter_example :
    group_of "alice" (filter_transactions_by_sender_address (tx_of 1 "1" ∷ tx_of 2 "2" ∷ []))
    ≡ sent_by "alice" (tx_of 1 "1" ∷ tx_of 2 "2" ∷ [])
group_of-filter_example = group_of-filter "alice" (tx_of 1 "1" ∷ tx_of 2 "2" ∷ [])
