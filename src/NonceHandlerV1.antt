-- ===== src/NonceHandlerV1.antt =====
-- interactors/nonceHandlerV1/addressNonceHandler.go: the nonces and the sent transactions of one
-- address. A method is a sequence of calls of the proxy and of sections under the mutex, so an
-- interleaving of several goroutines is a sequence of the `locked` sections below. The transactions are
-- pointers of the callers: what a pointer points to is looked up in the world at each use, since a
-- caller may change a transaction that it has sent.
pub mod Transactions
pub mod Nonces
pub mod Resend
pub mod Aliasing
pub mod Examples
use mx_sdk_erdgo.Prelude.{
  ℕ, ◌+◌, ◌-◌, ◌%◌, max, String, Bool, true, false, ◌&&◌, List, [], ◌∷◌, ltb, leb, ◌==◌, string_eq,
  bytes_eq, nat_eq, if◌then◌else◌, map,
}
use mx_sdk_erdgo.Prelude.Exec.{Exec, ok, ◌>>=◌, ◌>>◌, pure, lift, locked, call}
use mx_sdk_erdgo.Dict.{Dict, insert}
use mx_sdk_erdgo.Chain.{u64, Address, FrontendTransaction, Account, PubkeyConverter, Proxy}

-- A `*FrontendTransaction`, and what the pointers point to.
abbrev pub Pointer : Type 0
Pointer = ℕ

abbrev pub Memory : Type 0 → Type 0
Memory W = W → Pointer → FrontendTransaction

pub record AddressNonceHandler : Type 0 where
  pub address : Address
  pub computed_nonce_was_set : Bool
  pub computed_nonce : ℕ
  pub transactions : Dict ℕ Pointer

pub new_address_nonce_handler : Address → AddressNonceHandler
new_address_nonce_handler address = record {
  address = address;
  computed_nonce_was_set = false;
  computed_nonce = 0;
  transactions = [];
}

-- The locked section of `getNonceUpdatingCurrent`, behind the fetch of the account's nonce.
pub next_nonce : ℕ → AddressNonceHandler → ℕ × AddressNonceHandler
next_nonce account_nonce anh =
    let c = (anh.computed_nonce + 1) % u64 in
    if anh.computed_nonce_was_set
    then (max c account_nonce, record anh { computed_nonce = c })
    else (
      account_nonce,
      record anh { computed_nonce = account_nonce; computed_nonce_was_set = true },
    )

-- The `range` loop of `reSendTransactionsIfRequired`: what is sent again, and what stays stored.
pub sweep : ℕ → Dict ℕ Pointer → List Pointer × Dict ℕ Pointer
sweep account_nonce [] = ([], [])
sweep account_nonce ((tx_nonce, tx) ∷ m) =
    let (resendable, kept) = sweep account_nonce m in
    if leb tx_nonce account_nonce
    then (resendable, kept)
    else (tx ∷ resendable, (tx_nonce, tx) ∷ kept)

-- The locked section of `reSendTransactionsIfRequired`. Both of its early returns are `[]`.
pub collect_resendable : ℕ → AddressNonceHandler → List Pointer × AddressNonceHandler
unfolding sweep
collect_resendable account_nonce anh =
    let (resendable, kept) = sweep account_nonce anh.transactions in
    if account_nonce == anh.computed_nonce
    then ([], record anh { transactions = [] })
    else (resendable, record anh { transactions = kept })

pub is_the_same_receiver_data_value : FrontendTransaction → FrontendTransaction → Bool
is_the_same_receiver_data_value old_tx tx =
    (old_tx.receiver == tx.receiver) && (old_tx.payload == tx.payload) && (old_tx.value == tx.value)

pub is_among : (Pointer → FrontendTransaction) → Pointer → Dict ℕ Pointer → Bool
unfolding is_the_same_receiver_data_value
is_among pointed_to tx [] = false
is_among pointed_to tx ((n, old_tx) ∷ m) =
    if is_the_same_receiver_data_value (pointed_to old_tx) (pointed_to tx)
    then true
    else is_among pointed_to tx m

-- A uint64 wraps around, so the test is needed.
pub decrement_computed_nonce : AddressNonceHandler → Unit {0} × AddressNonceHandler
decrement_computed_nonce anh =
    if ltb 0 anh.computed_nonce
    then (tt, record anh { computed_nonce = (anh.computed_nonce + (u64 - 1)) % u64 })
    else (tt, anh)

pub mark_re_fetch_nonce : AddressNonceHandler → Unit {0} × AddressNonceHandler
mark_re_fetch_nonce anh = (tt, record anh { computed_nonce_was_set = false })

module _ {W : Type 0} (memory : Memory W) where
  -- `anh.transactions[tx.Nonce] = tx`, under the lock.
  pub store_transaction : Pointer → Exec (AddressNonceHandler × W) (Unit {0})
  store_transaction tx (anh, w) =
      (ok tt, (record anh { transactions = insert anh.transactions (memory w tx).nonce tx }, w))

  pub is_tx_already_sent : Pointer → Exec (AddressNonceHandler × W) Bool
  unfolding is_among
  is_tx_already_sent tx (anh, w) = (ok (is_among (memory w) tx anh.transactions), (anh, w))

module _ {W : Type 0} (proxy : Proxy W) (converter : PubkeyConverter) where
  fetch_account : Exec (AddressNonceHandler × W) Account
  fetch_account (anh, w) = call (proxy.get_account anh.address) (anh, w)

  pub get_nonce_updating_current : Exec (AddressNonceHandler × W) ℕ
  unfolding fetch_account
  get_nonce_updating_current = do account ← fetch_account; locked (next_nonce account.nonce)

  address_as_bech32 : Exec (AddressNonceHandler × W) String
  address_as_bech32 (anh, w) = lift (converter.encode anh.address) (anh, w)

  module _ (memory : Memory W) where
    send_pointed_to : List Pointer → Exec (AddressNonceHandler × W) (List String)
    send_pointed_to txs (anh, w) = call (proxy.send_transactions (map (memory w) txs)) (anh, w)

    pub re_send : List Pointer → Exec (AddressNonceHandler × W) (Unit {0})
    unfolding address_as_bech32 send_pointed_to
    re_send [] = pure tt
    re_send (tx ∷ txs) = do
      hashes ← send_pointed_to (tx ∷ txs)
      address ← address_as_bech32
      pure tt

    pub re_send_transactions_if_required : Exec (AddressNonceHandler × W) (Unit {0})
    unfolding fetch_account re_send
    re_send_transactions_if_required = do
      account ← fetch_account
      txs ← locked (collect_resendable account.nonce)
      re_send txs

    send_stored : Pointer → Exec (AddressNonceHandler × W) String
    send_stored tx (anh, w) = call (proxy.send_transaction (memory w tx)) (anh, w)

    pub send_transaction : Pointer → Exec (AddressNonceHandler × W) String
    unfolding send_stored
    send_transaction tx = do store_transaction memory tx; send_stored tx
