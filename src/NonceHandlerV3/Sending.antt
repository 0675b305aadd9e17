-- ===== src/NonceHandlerV3/Sending.antt =====
-- `SendTransaction` of interactors/nonceHandlerV3/addressNonceHandler.go and `SendTransactions` of
-- nonceTransactionsHandler.go. The loop starts a goroutine for each transaction, and these end in any
-- order. The worker that each of them has given its transaction to is that of the module Worker.
pub mod Order
pub mod Returned
pub mod Examples
use mx_sdk_erdgo.Prelude.{
  ℕ, suc, ◌+◌, ◌<◌, ◌≡◌, ◌≢◌, refl, sym, ap, ◌∙◌, String, ◌⊎◌, inl, inr, Bool, true, false,
  Bool-cases, Option, none, some, List, [], ◌∷◌, ◌++◌, Mem, arith, All, length, at, write, bytes_eq,
  ◌==◌, nat_eq, if◌then◌else◌,
}
use mx_sdk_erdgo.Prelude.Exec.{Error, Result, ok, err, panic, nil_transaction, wrapped, Exec}
use mx_sdk_erdgo.Dict.{Dict, insert}
use mx_sdk_erdgo.Chain.{Address, FrontendTransaction, PubkeyConverter}
use mx_sdk_erdgo.Handlers
use mx_sdk_erdgo.Worker.{TransactionResponse}
use mx_sdk_erdgo.NonceHandlerV3.{AddressNonceHandler, new_handler, adapt_nonce_based_on_response}
use mx_sdk_erdgo.NonceHandlerV3.Transactions.{NonceTransactionsHandler}

-- The `select` of `SendTransaction`: a response, or the end of the context, with its error.
pub data Outcome : Type 0 where
  responded : TransactionResponse → Outcome
  cancelled : Error → Outcome

-- What `SendTransaction` does with it: the hash and the error that it returns.
unfoldable pub receive :
    Outcome → AddressNonceHandler → (String × Option Error) × AddressNonceHandler
receive (responded response) anh =
    ((response.tx_hash, response.error), (adapt_nonce_based_on_response response.error anh).1)
receive (cancelled e) anh = (("", some e), anh)

-- A goroutine: the index of its transaction, the address of the handler that it calls, and a copy of the
-- transaction.
pub record Started : Type 0 where
  pub idx : ℕ
  pub address : Address
  pub tx_copy : FrontendTransaction

-- What the goroutines share: the hashes, the first error, and the handlers.
pub record Group : Type 0 where
  pub sent_hashes : List String
  pub error : Option Error
  pub handlers : NonceTransactionsHandler

-- One round of the loop, before the rest of it. A nil transaction or a sender that is no address ends the
-- loop.
unfoldable pub start_with :
    ℕ
    → FrontendTransaction
    → NonceTransactionsHandler
    → (NonceTransactionsHandler → Result (Unit {0}) × List Started × NonceTransactionsHandler)
    → Result Address
    → Result (Unit {0}) × List Started × NonceTransactionsHandler
start_with i tx handlers rest (err e) =
    (err (wrapped "while creating address handler" e), [], handlers)
start_with i tx handlers rest panic = (panic, [], handlers)
start_with i tx handlers rest (ok address) =
    let (r, started, end) = rest (Handlers.get_or_create new_handler address handlers).1 in
    (r, record { idx = i; address = address; tx_copy = tx } ∷ started, end)

-- The `for` loop of `SendTransactions`, from an index on: the goroutines that it has started.
unfoldable pub start_sends :
    PubkeyConverter
    → ℕ
    → List (Option FrontendTransaction)
    → NonceTransactionsHandler
    → Result (Unit {0}) × List Started × NonceTransactionsHandler
unfolding start_with
start_sends converter i [] handlers = (ok tt, [], handlers)
start_sends converter i (none ∷ txs) handlers = (err nil_transaction, [], handlers)
start_sends converter i (some tx ∷ txs) handlers =
    start_with i tx handlers (start_sends converter (i + 1) txs) (converter.decode tx.sender)

-- `errgroup` keeps the first error.
abbrev pub first_error : Option Error → Error → Option Error
first_error none e = some e
first_error (some first) e = some first

unfoldable pub settle : ℕ → String × Option Error → Group → Group
settle i (hash, none) group = record group { sent_hashes = write group.sent_hashes i hash }
settle i (hash, some e) group = record group {
  error = first_error group.error (wrapped "while sending transaction for address" e);
}

-- The end of a goroutine.
unfoldable pub finish : Started × Outcome → Group → Group
unfolding receive settle
finish (started, outcome) group =
    let (anh, handlers) = Handlers.get_or_create new_handler started.address group.handlers in
    let (reply, anh') = receive outcome anh in
    settle started.idx reply (record group { handlers = insert handlers started.address anh' })

-- `group.Wait()`, with the goroutines in the order in which they end.
unfoldable pub wait : List (Started × Outcome) → Group → Group
unfolding finish
wait [] group = group
wait (c ∷ cs) group = wait cs (finish c group)

abbrev pub new_hashes : {A : Type 0} → List A → List String
new_hashes [] = []
new_hashes (tx ∷ txs) = "" ∷ new_hashes txs

-- The hashes, nil on an early return, the error, and the handlers. `order` is how the goroutines end.
abbrev pub conclude :
    (List Started → List (Started × Outcome))
    → List String
    → Result (Unit {0}) × List Started × NonceTransactionsHandler
    → Result (List String × Option Error) × NonceTransactionsHandler
conclude order hashes (err e, started, handlers) = (ok ([], some e), handlers)
conclude order hashes (panic, started, handlers) = (panic, handlers)
conclude order hashes (ok u, started, handlers) =
    let group =
      wait (order started) (record { sent_hashes = hashes; error = none; handlers = handlers }) in
    (ok (group.sent_hashes, group.error), group.handlers)

unfoldable pub send_transactions :
    PubkeyConverter
    → (List Started → List (Started × Outcome))
    → List (Option FrontendTransaction)
    → NonceTransactionsHandler
    → Result (List String × Option Error) × NonceTransactionsHandler
unfolding start_sends wait
send_transactions converter order txs handlers =
    conclude order (new_hashes txs) (start_sends converter 0 txs handlers)
