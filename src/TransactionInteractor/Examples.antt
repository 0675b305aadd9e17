-- ===== src/TransactionInteractor/Examples.antt =====
-- The theorems on the transaction interactor at concrete inputs, and tests.
use mx_sdk_erdgo.Prelude.{◌≡◌, refl, false, String, List, [], ◌∷◌, arith, length, map}
use mx_sdk_erdgo.Prelude.Exec.{ok, err, external, invalid_value}
use mx_sdk_erdgo.Chain.{FrontendTransaction, Proxy}
use mx_sdk_erdgo.ExampleChain.{World, world, proxy, tx_of}
use mx_sdk_erdgo.TransactionInteractor.{
  TransactionInteractor, pop_accumulated_transactions, send_bunches, send_transactions_as_bunch,
}
use mx_sdk_erdgo.TransactionInteractor.Bunches.{
  concat, AreBunches, send_each, send_transactions_as_bunch_lem,
}

abbrev three : TransactionInteractor
three = record {
  time_between_bunches = 1;
  tx_accumulator = tx_of 1 "1" ∷ tx_of 2 "1" ∷ tx_of 3 "1" ∷ [];
}

send_transactions_as_bunch_lem_example :
    (bs : List (List FrontendTransaction)) × (concat bs ≡ three.tx_accumulator)
    × AreBunches 2 bs
    × (send_transactions_as_bunch proxy 2 (three, world 0) ≡ (
      (send_each proxy bs [] (world 0)).0,
      (record three { tx_accumulator = [] }, (send_each proxy bs [] (world 0)).1),
    ))
send_transactions_as_bunch_lem_example =
    send_transactions_as_bunch_lem proxy 2 three (world 0) (omega arith)

-- A proxy that is always online.
abbrev online : Proxy World
online = record proxy { send_transactions = λ txs w. (ok (map (λ tx. "hash") txs), w) }

length-hashes :
    (txs : List FrontendTransaction) → length {A = String} (map (λ tx. "hash") txs) ≡ length txs
length-hashes [] = refl
length-hashes (tx ∷ txs) = omega (arith, length-hashes txs)

-- The accumulator is emptied though the proxy is offline.
offline_run : (send_transactions_as_bunch proxy 2 (three, record (world 0) { online = false })) ≡ (
  err (external "offline"),
  (record three { tx_accumulator = [] }, record (world 0) { online = false }),
)
unfolding send_transactions_as_bunch pop_accumulated_transactions send_bunches
offline_run = refl

size_zero : (send_transactions_as_bunch proxy 0 (three, world 0)).0 ≡ err invalid_value
unfolding send_transactions_as_bunch
size_zero = refl
