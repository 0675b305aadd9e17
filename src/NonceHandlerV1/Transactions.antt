-- ===== src/NonceHandlerV1/Transactions.antt =====
-- interactors/nonceHandlerV1/nonceTransactionsHandler.go
pub mod Addresses
pub mod Sending
use mx_sdk_erdgo.Prelude.{
  ℕ, ◌^◌, String, Bool, true, false, ◌&&◌, Option, none, some, List, [], ◌∷◌, ltb, bytes_eq,
  if◌then◌else◌,
}
use mx_sdk_erdgo.Prelude.Exec.{
  Result, ok, err, nil_proxy, nil_address, nil_transaction, invalid_value, tx_already_sent, wrapped,
  Exec, ◌>>=◌, ◌>>◌, lift, raise, non_nil, wrap_error, locked, call,
}
use mx_sdk_erdgo.Dict.{Dict}
use mx_sdk_erdgo.Handlers
use mx_sdk_erdgo.Chain.{Address, PubkeyConverter, Proxy, Context}
use mx_sdk_erdgo.NonceHandlerV1.{
  Pointer, Memory, AddressNonceHandler, new_address_nonce_handler, is_tx_already_sent,
  decrement_computed_nonce, mark_re_fetch_nonce, get_nonce_updating_current,
  re_send_transactions_if_required, send_transaction,
}

pub record NonceTransactionsHandler : Type 0 where
  pub handlers : Dict Address AddressNonceHandler
  pub check_for_duplicates : Bool

-- A `time.Duration` of this package is a number of nanoseconds that is not negative.
abbrev pub minimum_interval_to_resend : ℕ
minimum_interval_to_resend = 10 ^ 9

-- The proxy is nil or not. The resend loop starts beside the result.
pub new_nonce_transaction_handler :
    {P : Type 0} → Option P → ℕ → Bool → Result NonceTransactionsHandler
new_nonce_transaction_handler none interval check_for_duplicates = err nil_proxy
new_nonce_transaction_handler (some proxy) interval check_for_duplicates =
    if ltb interval minimum_interval_to_resend
    then err (wrapped "for intervalToResend in NewNonceTransactionHandlerV1" invalid_value)
    else ok (record { handlers = []; check_for_duplicates = check_for_duplicates })

module _ {W : Type 0} where
  -- A method of the handler of one address.
  pub on_handler :
      {A : Type 0}
      → Address
      → Exec (AddressNonceHandler × W) A
      → Exec (NonceTransactionsHandler × W) A
  on_handler address method (nth, w) =
      let (r, (m, w')) =
        Handlers.on_handler new_address_nonce_handler address method (nth.handlers, w) in
      (r, (record nth { handlers = m }, w'))

  refuse_duplicate : Exec (AddressNonceHandler × W) String
  refuse_duplicate = do locked decrement_computed_nonce; raise tx_already_sent

  module _ (proxy : Proxy W) (converter : PubkeyConverter) (memory : Memory W) where
    pub get_nonce : Option Address → Exec (NonceTransactionsHandler × W) ℕ
    get_nonce address = do
      a ← non_nil nil_address address
      on_handler a (get_nonce_updating_current proxy converter)

    -- The part of `SendTransaction` that works on the handler of the sender.
    unfoldable pub send_checked : Bool → Pointer → Exec (AddressNonceHandler × W) String
    unfolding refuse_duplicate
    send_checked check_for_duplicates tx = do
      sent ← is_tx_already_sent memory tx
      (if check_for_duplicates && sent
          then refuse_duplicate
          else wrap_error "while sending transaction for address"
              (send_transaction proxy converter memory tx))

    decode_sender : Pointer → Exec (NonceTransactionsHandler × W) Address
    decode_sender tx (nth, w) = lift (converter.decode (memory w tx).sender) (nth, w)

    pub send_with : Bool → Option Pointer → Exec (NonceTransactionsHandler × W) String
    unfolding decode_sender
    send_with check_for_duplicates tx = do
      t ← non_nil nil_transaction tx
      address ← wrap_error "while creating address handler for string" (decode_sender t)
      on_handler address (send_checked check_for_duplicates t)

    -- `SendTransaction`
    pub send : Option Pointer → Exec (NonceTransactionsHandler × W) String
    unfolding send_with
    send tx (nth, w) = send_with nth.check_for_duplicates tx (nth, w)

  pub force_nonce_re_fetch : Option Address → Exec (NonceTransactionsHandler × W) (Unit {0})
  force_nonce_re_fetch address = do
    a ← non_nil nil_address address
    on_handler a (locked mark_re_fetch_nonce)

-- What the goroutine of `resendTransactionsLoop` can receive.
pub data LoopEvent : Type 0 where
  ticked : LoopEvent
  cancelled : LoopEvent

module _ {W : Type 0} (proxy : Proxy W) (converter : PubkeyConverter) (memory : Memory W)
    (ctx : Context W) where
  -- The `range` loop of `resendTransactions`. An error is logged, and the loop goes on.
  pub resend_handlers : Dict Address AddressNonceHandler → W → Dict Address AddressNonceHandler × W
  resend_handlers [] w = ([], w)
  resend_handlers ((a, anh) ∷ m) w =
      let (r, (anh', w')) = re_send_transactions_if_required proxy converter memory (anh, w) in
      let (m', w'') = resend_handlers m w' in
      if ctx.is_done w then ((a, anh) ∷ m, w) else ((a, anh') ∷ m', w'')

  pub resend_transactions : NonceTransactionsHandler × W → NonceTransactionsHandler × W
  unfolding resend_handlers
  resend_transactions (nth, w) =
      let (m, w') = resend_handlers nth.handlers w in (record nth { handlers = m }, w')

  pub resend_transactions_loop :
      List LoopEvent → NonceTransactionsHandler × W → NonceTransactionsHandler × W
  unfolding resend_transactions
  resend_transactions_loop [] s = s
  resend_transactions_loop (cancelled ∷ events) s = s
  resend_transactions_loop (ticked ∷ events) s =
      resend_transactions_loop events (resend_transactions s)

  pub close : NonceTransactionsHandler × W → NonceTransactionsHandler × W
  close (nth, w) = (nth, ctx.cancel w)
