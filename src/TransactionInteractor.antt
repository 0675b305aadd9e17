-- ===== src/TransactionInteractor.antt =====
-- interactors/transaction.go: transactions are accumulated, and sent in bunches.
pub mod Bunches
pub mod Examples
use mx_sdk_erdgo.Prelude.{
  ℕ, zero, suc, ◌≤◌, String, Bool, true, false, Option, none, some, List, [], ◌∷◌, ◌++◌, length,
  take, drop, ltb, leb, ◌==◌, nat_eq, if◌then◌else◌,
}
use mx_sdk_erdgo.Prelude.Exec.{
  Exec, Result, ok, ◌>>=◌, ◌>>◌, pure, raise, locked, call, invalid_value,
}
use mx_sdk_erdgo.Chain.{FrontendTransaction, Proxy}

-- Durations are counted in nanoseconds.
pub record TransactionInteractor : Type 0 where
  pub time_between_bunches : ℕ
  pub tx_accumulator : List FrontendTransaction

pub default_time_between_bunches : ℕ
default_time_between_bunches = 1000000000

pub new_transaction_interactor : TransactionInteractor
unfolding default_time_between_bunches
new_transaction_interactor = record {
  time_between_bunches = default_time_between_bunches;
  tx_accumulator = [];
}

pub set_time_between_bunches : ℕ → TransactionInteractor → Unit {0} × TransactionInteractor
set_time_between_bunches time ti = (tt, record ti { time_between_bunches = time })

-- A nil transaction is not added.
pub add_transaction :
    Option FrontendTransaction → TransactionInteractor → Unit {0} × TransactionInteractor
add_transaction none ti = (tt, ti)
add_transaction (some tx) ti = (tt, record ti { tx_accumulator = ti.tx_accumulator ++ (tx ∷ []) })

pub pop_accumulated_transactions :
    TransactionInteractor → List FrontendTransaction × TransactionInteractor
pop_accumulated_transactions ti = (ti.tx_accumulator, record ti { tx_accumulator = [] })

-- The next bunch, and what is left behind it.
unfoldable pub next_bunch :
    ℕ → List FrontendTransaction → List FrontendTransaction × List FrontendTransaction
next_bunch bunch_size transactions =
    if ltb bunch_size (length transactions)
    then (take bunch_size transactions, drop bunch_size transactions)
    else (transactions, [])

module _ {W : Type 0} (proxy : Proxy W) where
  -- The `for` loop of `SendTransactionsAsBunch`. Each round sends at least one transaction, so as
  -- many rounds as there are transactions are enough.
  unfoldable pub send_bunches :
      ℕ
      → ℕ
      → List FrontendTransaction
      → List String
      → Exec (TransactionInteractor × W) (List String)
  unfolding next_bunch
  send_bunches zero bunch_size transactions all_hashes = pure all_hashes
  send_bunches (suc fuel) bunch_size [] all_hashes = pure all_hashes
  send_bunches (suc fuel) bunch_size (tx ∷ txs) all_hashes =
      let (bunch, rest) = next_bunch bunch_size (tx ∷ txs) in
      do
        hashes ← call (proxy.send_transactions bunch)
        send_bunches fuel bunch_size rest (all_hashes ++ hashes)

  -- A bunch size that is not above 0 is refused; a negative one is treated as 0 is.
  pub send_transactions_as_bunch : ℕ → Exec (TransactionInteractor × W) (List String)
  unfolding send_bunches
  send_transactions_as_bunch zero = raise invalid_value
  send_transactions_as_bunch (suc n) = do
    transactions ← locked pop_accumulated_transactions
    send_bunches (length transactions) (suc n) transactions []
