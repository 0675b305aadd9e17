-- ===== src/NonceHandlerV2.antt =====
-- interactors/nonceHandlerV2/addressNonceHandler.go: nonces, gas price and sent transactions of one
-- address. Transactions are values: `SendTransaction` of the handler above stores a copy.
pub mod Transactions
pub mod Applying
pub mod Outcome
pub mod Resend
pub mod Examples
use mx_sdk_erdgo.Prelude.{
  ℕ, ◌+◌, ◌%◌, min, max, String, Bool, true, false, ◌&&◌, ◌||◌, Option, none, some, ◌⊎◌, inl, inr,
  List, [], ◌∷◌, ltb, leb, ◌==◌, nat_eq, if◌then◌else◌,
}
use mx_sdk_erdgo.Prelude.Exec.{
  Error, nil_proxy, nil_address, gap_nonce, tx_with_same_nonce_and_gas_price_already_sent, Result,
  ok, err, panic, Exec, ◌>>=◌, ◌>>◌, pure, lift, attempt, locked, call,
}
use mx_sdk_erdgo.Dict.{Dict, lookup, insert}
use mx_sdk_erdgo.Chain.{
  u64, Address, FrontendTransaction, Account, NetworkConfig, PubkeyConverter, Proxy,
}

pub record AddressNonceHandler : Type 0 where
  pub address : Address
  pub computed_nonce_was_set : Bool
  pub computed_nonce : ℕ
  pub lowest_nonce : ℕ
  pub gas_price : ℕ
  pub nonce_until_gas_increased : ℕ
  pub transactions : Dict ℕ FrontendTransaction

pub new_handler : Address → AddressNonceHandler
new_handler address = record {
  address = address;
  computed_nonce_was_set = false;
  computed_nonce = 0;
  lowest_nonce = 0;
  gas_price = 0;
  nonce_until_gas_increased = 0;
  transactions = [];
}

pub new_address_nonce_handler :
    {P : Type 0} → Option P → Option Address → Result AddressNonceHandler
unfolding new_handler
new_address_nonce_handler none address = err nil_proxy
new_address_nonce_handler (some proxy) none = err nil_address
new_address_nonce_handler (some proxy) (some address) = ok (new_handler address)

-- The error of `handleTxWithSameNonce`, or nil.
pub handle_tx_with_same_nonce :
    AddressNonceHandler → FrontendTransaction → FrontendTransaction → Option Error
handle_tx_with_same_nonce anh old_tx tx =
    if ltb old_tx.gas_price tx.gas_price
    then none
    else if (old_tx.gas_price == tx.gas_price) && ltb old_tx.gas_price anh.gas_price
    then none
    else some tx_with_same_nonce_and_gas_price_already_sent

-- The locked section of `getNonceUpdatingCurrent`.
pub next_nonce : ℕ → AddressNonceHandler → ℕ × AddressNonceHandler
next_nonce account_nonce anh =
    let c = (anh.computed_nonce + 1) % u64 in
    if anh.computed_nonce_was_set
    then (max c account_nonce, record anh { computed_nonce = c })
    else (
      account_nonce,
      record anh { computed_nonce = account_nonce; computed_nonce_was_set = true },
    )

pub set_gas_price : ℕ → AddressNonceHandler → Unit {0} × AddressNonceHandler
set_gas_price price anh = (tt, record anh { gas_price = price })

-- The `range` loop of `ReSendTransactionsIfRequired`: what is sent again, what stays stored, and
-- the lowest nonce of those, from `lowest` down.
pub sweep :
    ℕ → ℕ → Dict ℕ FrontendTransaction → List FrontendTransaction × Dict ℕ FrontendTransaction × ℕ
sweep account_nonce lowest [] = ([], [], lowest)
sweep account_nonce lowest ((tx_nonce, tx) ∷ m) =
    let (resendable, kept, min_nonce) = sweep account_nonce lowest m in
    if leb tx_nonce account_nonce
    then (resendable, kept, min_nonce)
    else (tx ∷ resendable, (tx_nonce, tx) ∷ kept, min tx_nonce min_nonce)

-- The locked section of `ReSendTransactionsIfRequired`. Both of its early returns are `[]`.
pub collect_resendable : ℕ → AddressNonceHandler → List FrontendTransaction × AddressNonceHandler
unfolding sweep
collect_resendable account_nonce anh =
    let (resendable, kept, min_nonce) = sweep account_nonce anh.computed_nonce anh.transactions in
    if account_nonce == anh.computed_nonce
    then ([], record anh { lowest_nonce = anh.computed_nonce; transactions = [] })
    else (resendable, record anh { lowest_nonce = min_nonce; transactions = kept })

pub store_transaction : FrontendTransaction → AddressNonceHandler → Unit {0} × AddressNonceHandler
store_transaction tx anh = (tt, record anh { transactions = insert anh.transactions tx.nonce tx })

pub drop_transactions : AddressNonceHandler → Unit {0} × AddressNonceHandler
drop_transactions anh = (
  tt,
  record anh {
    transactions = [];
    computed_nonce_was_set = false;
    gas_price = (anh.gas_price + 1) % u64;
    nonce_until_gas_increased = anh.computed_nonce;
  },
)

pub get_older_tx_with_same_nonce :
    FrontendTransaction → AddressNonceHandler → Option FrontendTransaction
get_older_tx_with_same_nonce tx anh = lookup anh.transactions tx.nonce

-- The two guards at the head of `ApplyNonceAndGasPrice`.
unfoldable pub refusal : FrontendTransaction → AddressNonceHandler → Option Error
unfolding get_older_tx_with_same_nonce handle_tx_with_same_nonce
refusal tx anh = elim (get_older_tx_with_same_nonce tx anh) [
  | none ↦ none
  | some old_tx ↦ handle_tx_with_same_nonce anh old_tx tx
]

pub needs_gas_price : ℕ → AddressNonceHandler → Bool
needs_gas_price nonce anh =
    (nonce == (anh.nonce_until_gas_increased + 1) % u64) || (anh.gas_price == 0)

-- `tx.GasPrice = core.MaxUint64(anh.gasPrice, tx.GasPrice)`
with_gas_price : FrontendTransaction → AddressNonceHandler → FrontendTransaction
with_gas_price tx anh = record tx { gas_price = max anh.gas_price tx.gas_price }

module _ {W : Type 0} (proxy : Proxy W) (converter : PubkeyConverter) where
  fetch_account : Exec (AddressNonceHandler × W) Account
  fetch_account (anh, w) = call (proxy.get_account anh.address) (anh, w)

  store_gas_price : NetworkConfig ⊎ Error → Exec (AddressNonceHandler × W) (Unit {0})
  unfolding set_gas_price
  store_gas_price (inl config) = locked (set_gas_price config.min_gas_price)
  store_gas_price (inr e) = locked (set_gas_price 0)

  pub fetch_gas_price_if_required : ℕ → Exec (AddressNonceHandler × W) (Unit {0})
  unfolding store_gas_price needs_gas_price
  fetch_gas_price_if_required nonce (anh, w) =
      (if needs_gas_price nonce anh
          then (do config ← attempt (call proxy.get_network_config); store_gas_price config)
          else pure tt)
        (anh, w)

  check_gap : Account ⊎ Error → Exec (AddressNonceHandler × W) (ℕ × Option Error)
  unfolding next_nonce
  check_gap (inr e) s = (ok (0, some e), s)
  check_gap (inl account) (anh, w) =
      if ltb account.nonce anh.lowest_nonce
      then (ok (account.nonce, some gap_nonce), (anh, w))
      else locked (λ h. let (n, h') = next_nonce account.nonce h in ((n, none), h')) (anh, w)

  -- The nonce comes back beside the error too.
  pub get_nonce_updating_current : Exec (AddressNonceHandler × W) (ℕ × Option Error)
  unfolding fetch_account check_gap
  get_nonce_updating_current = do account ← attempt fetch_account; check_gap account

  finish_applying :
      FrontendTransaction
      → Option Error
      → Exec (AddressNonceHandler × W) (FrontendTransaction × Option Error)
  unfolding with_gas_price
  finish_applying tx (some e) = pure (tx, some e)
  finish_applying tx none = do
    fetch_gas_price_if_required tx.nonce
    locked (λ anh. ((with_gas_price tx anh, none), anh))

  apply_unless :
      Option Error
      → FrontendTransaction
      → Exec (AddressNonceHandler × W) (FrontendTransaction × Option Error)
  unfolding finish_applying
  apply_unless (some e) tx = pure (tx, some e)
  apply_unless none tx = do
    (nonce, e) ← get_nonce_updating_current
    finish_applying (record tx { nonce = nonce }) e

  -- The transaction is changed in place: it comes back as it is left, beside the error.
  pub apply_nonce_and_gas_price :
      FrontendTransaction → Exec (AddressNonceHandler × W) (FrontendTransaction × Option Error)
  unfolding apply_unless refusal
  apply_nonce_and_gas_price tx (anh, w) = apply_unless (refusal tx anh) tx (anh, w)

  address_as_bech32 : Exec (AddressNonceHandler × W) String
  address_as_bech32 (anh, w) = lift (converter.encode anh.address) (anh, w)

  pub re_send : List FrontendTransaction → Exec (AddressNonceHandler × W) (Unit {0})
  unfolding address_as_bech32
  re_send [] = pure tt
  re_send (tx ∷ txs) = do
    hashes ← call (proxy.send_transactions (tx ∷ txs))
    address ← address_as_bech32
    pure tt

  pub re_send_transactions_if_required : Exec (AddressNonceHandler × W) (Unit {0})
  unfolding fetch_account re_send
  re_send_transactions_if_required = do
    account ← fetch_account
    txs ← locked (collect_resendable account.nonce)
    re_send txs

  pub send_transaction : FrontendTransaction → Exec (AddressNonceHandler × W) String
  send_transaction tx = do locked (store_transaction tx); call (proxy.send_transaction tx)
