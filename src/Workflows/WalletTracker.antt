-- ===== src/Workflows/WalletTracker.antt =====
-- workflows/walletsTracker.go: the hyper blocks are fetched one by one, and the receivers of deposits
-- are accumulated. The tracker's goroutine is a sequence of rounds of its timer.
pub mod Deposits
pub mod Rounds
pub mod Examples
use mx_sdk_erdgo.Prelude.{
  ℕ, zero, suc, ◌+◌, ◌-◌, ◌%◌, String, Bool, true, false, not, Option, none, some, List, [], ◌∷◌,
  ltb, leb, if◌then◌else◌,
}
use mx_sdk_erdgo.Prelude.Exec.{Exec, ◌>>=◌, ◌>>◌, pure, locked, call}
use mx_sdk_erdgo.BigInt.{ℤ, is_less, set_string}
use mx_sdk_erdgo.Chain.{u64, Bytes}
use mx_sdk_erdgo.Workflows.AddressesAccumulator.{
  AddressesAccumulator, new_addresses_accumulator, push, pop,
}

-- The fields that the tracker reads.
pub record TransactionOnNetwork : Type 0 where
  pub value : Bytes
  pub receiver : String

pub record HyperBlock : Type 0 where
  pub nonce : ℕ
  pub transactions : List TransactionOnNetwork

-- `ProxyHandler` and `LastProcessedNonceHandler`, over the world that they act on.
pub record ProxyHandler (W : Type 0) : Type 0 where
  pub get_latest_hyper_block_nonce : Exec W ℕ
  pub get_hyper_block_by_nonce : ℕ → Exec W HyperBlock

pub record LastProcessedNonceHandler (W : Type 0) : Type 0 where
  pub processed_nonce : ℕ → W → W
  pub get_last_processed_nonce : W → ℕ

pub record WalletTracker (W : Type 0) : Type 0 where
  pub accumulator : AddressesAccumulator
  pub minimum_balance : ℤ
  pub handler_new_deposit_transaction : Option (TransactionOnNetwork → W → W)

-- `SetHandlerForNewDepositTransactionFound`; nil is ignored.
pub set_handler :
    {W : Type 0} → Option (TransactionOnNetwork → W → W) → WalletTracker W → WalletTracker W
set_handler none wt = wt
set_handler (some handler) wt = record wt { handler_new_deposit_transaction = some handler }

pub get_latest_tracked_addresses : {W : Type 0} → WalletTracker W → List String × WalletTracker W
get_latest_tracked_addresses wt =
    let (addresses, accumulator') = pop wt.accumulator in
    (addresses, record wt { accumulator = accumulator' })

module _ {W : Type 0} where
  abbrev pub notified : Option (TransactionOnNetwork → W → W) → TransactionOnNetwork → W → W
  notified none tx w = w
  notified (some handler) tx w = handler tx w

  unfoldable pub notify_new_deposit_transaction_found :
      TransactionOnNetwork → WalletTracker W × W → WalletTracker W × W
  notify_new_deposit_transaction_found tx (wt, w) =
      (wt, notified wt.handler_new_deposit_transaction tx w)

-- `IsTrackableAddresses` is a parameter that answers about an address the same throughout.
module _ {W : Type 0} (is_trackable : String → Bool) where
  unfoldable pub process_value :
      TransactionOnNetwork → Option ℤ → WalletTracker W × W → WalletTracker W × W
  unfolding notify_new_deposit_transaction_found
  process_value tx none s = s
  process_value tx (some value) (wt, w) =
      if not (is_trackable tx.receiver)
      then (wt, w)
      else if is_less value wt.minimum_balance
      then (wt, w)
      else let (wt', w') = notify_new_deposit_transaction_found tx (wt, w) in
        (record wt' { accumulator = push tx.receiver wt'.accumulator }, w')

  -- An invalid value is only logged.
  unfoldable pub process_transaction :
      TransactionOnNetwork → WalletTracker W × W → WalletTracker W × W
  unfolding process_value
  process_transaction tx s = process_value tx (set_string tx.value) s

  unfoldable pub process_transactions :
      List TransactionOnNetwork → WalletTracker W × W → WalletTracker W × W
  unfolding process_transaction
  process_transactions [] s = s
  process_transactions (tx ∷ txs) s = process_transactions txs (process_transaction tx s)

  unfoldable pub process_hyper_block : HyperBlock → Exec (WalletTracker W × W) (Unit {0})
  unfolding process_transactions
  process_hyper_block block s = pure tt (process_transactions block.transactions s)

  module _ (proxy : ProxyHandler W) (nonces : LastProcessedNonceHandler W) where
    unfoldable pub fetch_and_process_hyper_block : ℕ → Exec (WalletTracker W × W) (Unit {0})
    unfolding process_hyper_block
    fetch_and_process_hyper_block nonce = do
      block ← call (proxy.get_hyper_block_by_nonce nonce)
      process_hyper_block block

    unfoldable pub mark_processed : ℕ → Exec (WalletTracker W × W) (Unit {0})
    mark_processed nonce (wt, w) = pure tt (wt, nonces.processed_nonce nonce w)

    -- The `for` loop, for a network nonce below 2^64 - 1: the fuel is the number of blocks, and
    -- `nonce++` does not wrap.
    unfoldable pub process_from : ℕ → ℕ → Exec (WalletTracker W × W) (Unit {0})
    unfolding fetch_and_process_hyper_block mark_processed
    process_from zero nonce = pure tt
    process_from (suc fuel) nonce = do
      fetch_and_process_hyper_block nonce
      mark_processed nonce
      process_from fuel ((nonce + 1) % u64)

    unfoldable pub fetch_and_process_hyper_blocks : Exec (WalletTracker W × W) (Unit {0})
    unfolding process_from
    fetch_and_process_hyper_blocks (wt, w) =
        let first = (nonces.get_last_processed_nonce w + 1) % u64 in
        (do
          network_nonce ← call (proxy.get_latest_hyper_block_nonce)
          process_from (network_nonce + 1 - first) first)
          (wt, w)
