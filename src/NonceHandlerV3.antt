-- ===== src/NonceHandlerV3.antt =====
-- interactors/nonceHandlerV3/addressNonceHandler.go: the nonce and the gas price of one address. An
-- int64 is its two's complement bit pattern, a number below 2^64: -1 is 2^64 - 1, and the
-- conversions from and to uint64 leave the pattern as it is.
pub mod Nonces
pub mod Transactions
pub mod Sending
pub mod Examples
use mx_sdk_erdgo.Prelude.{
  ℕ, ◌+◌, ◌-◌, ◌%◌, max, Option, none, some, ◌⊎◌, inl, inr, List, [], ◌∷◌, ◌==◌, nat_eq,
  if◌then◌else◌,
}
use mx_sdk_erdgo.Prelude.Exec.{
  Error, nil_proxy, nil_address, wrapped, Result, ok, err, panic, Exec, ◌>>=◌, ◌>>◌, pure, attempt,
  wrap_error, locked, call,
}
use mx_sdk_erdgo.Chain.{u64, Address, FrontendTransaction, NetworkConfig, Proxy}

pub record AddressNonceHandler : Type 0 where
  pub address : Address
  pub nonce : ℕ
  pub gas_price : ℕ

-- -1: no nonce is cached.
abbrev pub no_nonce : ℕ
no_nonce = u64 - 1

pub new_handler : Address → AddressNonceHandler
new_handler address = record { address = address; nonce = no_nonce; gas_price = 0 }

-- The worker of the handler starts beside the result.
pub new_address_nonce_handler :
    {P : Type 0} → Option P → Option Address → Result AddressNonceHandler
unfolding new_handler
new_address_nonce_handler none address = err nil_proxy
new_address_nonce_handler (some proxy) none = err nil_address
new_address_nonce_handler (some proxy) (some address) = ok (new_handler address)

-- The error of a response of the worker, or nil, ends the life of the cached nonce.
unfoldable pub adapt_nonce_based_on_response :
    Option Error → AddressNonceHandler → Unit {0} × AddressNonceHandler
adapt_nonce_based_on_response none anh = (tt, anh)
adapt_nonce_based_on_response (some e) anh = (tt, record anh { nonce = no_nonce })

increment_nonce : AddressNonceHandler → ℕ × AddressNonceHandler
increment_nonce anh = let n = (anh.nonce + 1) % u64 in (n, record anh { nonce = n })

set_nonce : ℕ → AddressNonceHandler → ℕ × AddressNonceHandler
set_nonce n anh = (n, record anh { nonce = n })

set_gas_price :
    ℕ → FrontendTransaction → AddressNonceHandler → FrontendTransaction × AddressNonceHandler
set_gas_price price tx anh =
    (record tx { gas_price = max price tx.gas_price }, record anh { gas_price = price })

module _ {W : Type 0} (proxy : Proxy W) where
  fetch_nonce : Exec (AddressNonceHandler × W) ℕ
  unfolding set_nonce
  fetch_nonce (anh, w) =
      (do
        account ← wrap_error "failed to fetch nonce" (call (proxy.get_account anh.address))
        locked (set_nonce account.nonce))
        (anh, w)

  -- The lock is held over the whole body.
  pub compute_nonce : Exec (AddressNonceHandler × W) ℕ
  unfolding fetch_nonce increment_nonce
  compute_nonce (anh, w) =
      (if anh.nonce == no_nonce then fetch_nonce else locked increment_nonce) (anh, w)

  -- `networkConfig.MinGasPrice` behind `GetNetworkConfig`. Where that fails the error is logged and
  -- the configuration is nil, so reading its field panics.
  price_of : NetworkConfig ⊎ Error → Exec (AddressNonceHandler × W) ℕ
  price_of (inl config) s = (ok config.min_gas_price, s)
  price_of (inr e) s = (panic, s)

  fetch_price : Exec (AddressNonceHandler × W) ℕ
  unfolding price_of
  fetch_price = do config ← attempt (call proxy.get_network_config); price_of config

  pub apply_gas_price_if_required :
      FrontendTransaction → Exec (AddressNonceHandler × W) FrontendTransaction
  unfolding fetch_price set_gas_price
  apply_gas_price_if_required tx (anh, w) =
      (do
        price ← (if anh.gas_price == 0 then fetch_price else pure anh.gas_price)
        locked (set_gas_price price tx))
        (anh, w)

  -- One round of the loop, before the rest of them.
  apply_one :
      FrontendTransaction
      → List FrontendTransaction
      → Exec (AddressNonceHandler × W) (List FrontendTransaction × Option Error)
      → ℕ ⊎ Error
      → Exec (AddressNonceHandler × W) (List FrontendTransaction × Option Error)
  unfolding apply_gas_price_if_required
  apply_one tx txs rest (inr e) = pure (tx ∷ txs, some (wrapped "failed to fetch nonce" e))
  apply_one tx txs rest (inl nonce) = do
    tx' ← apply_gas_price_if_required (record tx { nonce = nonce })
    (txs', e) ← rest
    pure (tx' ∷ txs', e)

  -- The transactions are changed in place: they come back as they are left, beside the error.
  pub apply_nonce_and_gas_price :
      List FrontendTransaction
      → Exec (AddressNonceHandler × W) (List FrontendTransaction × Option Error)
  unfolding apply_one compute_nonce
  apply_nonce_and_gas_price [] = pure ([], none)
  apply_nonce_and_gas_price (tx ∷ txs) = do
    nonce ← attempt compute_nonce
    apply_one tx txs (apply_nonce_and_gas_price txs) nonce
