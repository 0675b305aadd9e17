-- ===== src/NonceHandlerV2/Transactions.antt =====
-- interactors/nonceHandlerV2/nonceTransactionsHandler.go. The state is its map of handlers.
use mx_sdk_erdgo.Prelude.{ℕ, ◌^◌, String, Option, none, some, [], ◌∷◌, ltb, if◌then◌else◌}
use mx_sdk_erdgo.Prelude.Exec.{
  Result, ok, err, nil_proxy, nil_address, nil_transaction, invalid_value, wrapped, Error, Exec,
  ◌>>=◌, lift, non_nil, wrap_error, locked,
}
use mx_sdk_erdgo.Dict.{Dict}
use mx_sdk_erdgo.Chain.{Address, FrontendTransaction, PubkeyConverter, Proxy, Context}
use mx_sdk_erdgo.Handlers
use mx_sdk_erdgo.NonceHandlerV2.{
  AddressNonceHandler, new_handler, apply_nonce_and_gas_price, re_send_transactions_if_required,
  send_transaction, drop_transactions,
}

abbrev pub NonceTransactionsHandler : Type 0
NonceTransactionsHandler = Dict Address AddressNonceHandler

abbrev pub minimum_interval_to_resend : ℕ
minimum_interval_to_resend = 10 ^ 9

pub new_nonce_transaction_handler : {P : Type 0} → Option P → ℕ → Result NonceTransactionsHandler
new_nonce_transaction_handler none interval = err nil_proxy
new_nonce_transaction_handler (some proxy) interval =
    if ltb interval minimum_interval_to_resend
    then err (wrapped "for intervalToResend in NewNonceTransactionHandlerV2" invalid_value)
    else ok []

module _ {W : Type 0} where
  pub drop : Option Address → Exec (NonceTransactionsHandler × W) (Unit {0})
  drop address = do
    a ← non_nil nil_address address
    Handlers.on_handler new_handler a (locked drop_transactions)

  module _ (proxy : Proxy W) (converter : PubkeyConverter) where
    pub apply :
        Option Address
        → Option FrontendTransaction
        → Exec (NonceTransactionsHandler × W) (FrontendTransaction × Option Error)
    apply address tx = do
      a ← non_nil nil_address address
      t ← non_nil nil_transaction tx
      Handlers.on_handler new_handler a (apply_nonce_and_gas_price proxy converter t)

    pub send : Option FrontendTransaction → Exec (NonceTransactionsHandler × W) String
    send tx = do
      t ← non_nil nil_transaction tx
      address ←
          wrap_error "while creating address handler for string" (lift (converter.decode t.sender))
      wrap_error "while sending transaction for address"
          (Handlers.on_handler new_handler address (send_transaction proxy converter t))

    module _ (ctx : Context W) where
      -- The `range` loop of `resendTransactions`. An error is logged, and the loop goes on.
      pub resend_transactions : NonceTransactionsHandler → W → NonceTransactionsHandler × W
      resend_transactions [] w = ([], w)
      resend_transactions ((a, anh) ∷ m) w =
          let (r, (anh', w')) = re_send_transactions_if_required proxy converter (anh, w) in
          let (m', w'') = resend_transactions m w' in
          if ctx.is_done w then ((a, anh) ∷ m, w) else ((a, anh') ∷ m', w'')

      pub close : NonceTransactionsHandler × W → NonceTransactionsHandler × W
      close (nth, w) = (nth, ctx.cancel w)
