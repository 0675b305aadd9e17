-- ===== src/Worker.antt =====
-- interactors/nonceHandlerV3/workers/transactionWorker.go: transactions wait in a queue, lowest nonce
-- first, and each has a channel for its response. A section under `mu`, a call of the proxy and a send
-- on a channel are each one step of the callers or of the worker's goroutine.
pub mod Queue
pub mod Sound
pub mod Answers
pub mod Examples
use mx_sdk_erdgo.Prelude.{
  ℕ, ◌+◌, ◌-◌, ◌≡◌, String, Bool, true, false, Option, none, some, List, [], ◌∷◌, ◌++◌, length,
  take, at, write, ltb, ◌==◌, nat_eq, if◌then◌else◌,
}
use mx_sdk_erdgo.Prelude.Exec.{Error, worker_closed, external}
use mx_sdk_erdgo.Dict.{Dict, lookup, insert, delete}
use mx_sdk_erdgo.Chain.{FrontendTransaction}
use mx_sdk_erdgo.BigInt.{ℤ, pos, negsuc}
use mx_sdk_erdgo.Heap.{Interface, ◌>>=◌, heap_push, heap_pop}

pub record TransactionResponse : Type 0 where
  pub tx_hash : String
  pub error : Option Error

pub record TransactionQueueItem : Type 0 where
  pub tx : FrontendTransaction
  pub index : ℤ

abbrev pub TransactionQueue : Type 0
TransactionQueue = List TransactionQueueItem

unfoldable pub push : TransactionQueueItem → TransactionQueue → TransactionQueue
push item tq = tq ++ (record item { index = pos (length tq) } ∷ [])

-- The last item; an empty queue panics.
unfoldable pub pop : TransactionQueue → Option (TransactionQueueItem × TransactionQueue)
pop tq = do
  item ← at tq (length tq - 1)
  some (record item { index = negsuc 0 }, take (length tq - 1) tq)

unfoldable pub swap : ℕ → ℕ → TransactionQueue → Option TransactionQueue
swap a b tq = do
  x ← at tq a
  y ← at tq b
  some (write (write tq a (record y { index = pos a })) b (record x { index = pos b }))

unfoldable pub less : ℕ → ℕ → TransactionQueue → Option Bool
less a b tq = do x ← at tq a; y ← at tq b; some (ltb x.tx.nonce y.tx.nonce)

-- The queue as `heap.Interface`.
unfoldable pub transaction_queue : Interface TransactionQueue TransactionQueueItem
unfolding push pop swap less
transaction_queue = record { len = length; less = less; swap = swap; push = push; pop = pop }

-- Where the goroutine stands: at the `select`, behind `nextTransaction`, behind `retrieveChannel`, whose
-- channel is nil if there is none, or at its end.
pub data Position : Type 0 where
  at_select stopped : Position
  holds : FrontendTransaction → Position
  sends : FrontendTransaction → Option ℕ → Position

-- The worker, with the channels that were made so far, numbered from 0, and what was sent on each. A
-- channel has room for one response.
pub record TransactionWorker : Type 0 where
  pub tq : TransactionQueue
  pub closed : Bool
  pub responses_channels : Dict ℕ ℕ
  pub channels : ℕ
  pub responses : List (ℕ × TransactionResponse)
  pub position : Position

unfoldable pub new_transaction_worker : TransactionWorker
new_transaction_worker = record {
  tq = [];
  closed = false;
  responses_channels = [];
  channels = 0;
  responses = [];
  position = at_select;
}

-- `make(chan *TransactionResponse, 1)`, with a response that is sent on it at once.
unfoldable pub answered_at_once : Error → TransactionWorker → ℕ × TransactionWorker
answered_at_once e tw = (
  tw.channels,
  record tw {
    channels = tw.channels + 1;
    responses = (tw.channels, record { tx_hash = ""; error = some e }) ∷ tw.responses;
  },
)

unfoldable pub schedule :
    Option ℕ → FrontendTransaction → TransactionWorker → Option (ℕ × TransactionWorker)
unfolding answered_at_once transaction_queue
schedule (some c) tx tw =
    some (answered_at_once (external "transaction has already been scheduled to send") tw)
schedule none tx tw = do
  tq' ← heap_push transaction_queue (record { tx = tx; index = pos 0 }) tw.tq
  some (
    tw.channels,
    record tw {
      tq = tq';
      channels = tw.channels + 1;
      responses_channels = insert tw.responses_channels tx.nonce tw.channels;
    },
  )

-- The channel that the caller gets, and the new state.
unfoldable pub add_transaction :
    FrontendTransaction → TransactionWorker → Option (ℕ × TransactionWorker)
unfolding schedule
add_transaction tx tw =
    if tw.closed
    then some (answered_at_once worker_closed tw)
    else schedule (lookup tw.responses_channels tx.nonce) tx tw

unfoldable pub next_transaction :
    TransactionWorker → Option (Option FrontendTransaction × TransactionWorker)
unfolding transaction_queue
next_transaction tw = if length tw.tq == 0 then some (none, tw) else do
  (item, tq') ← heap_pop transaction_queue tw.tq
  some (some item.tx, record tw { tq = tq' })

unfoldable pub retrieve_channel : ℕ → TransactionWorker → Option ℕ × TransactionWorker
retrieve_channel nonce tw = (
  lookup tw.responses_channels nonce,
  record tw { responses_channels = delete tw.responses_channels nonce },
)

unfoldable pub respond_all :
    Error → Dict ℕ ℕ → List (ℕ × TransactionResponse) → List (ℕ × TransactionResponse)
respond_all e [] responses = responses
respond_all e ((nonce, c) ∷ m) responses =
    (c, record { tx_hash = ""; error = some e }) ∷ respond_all e m responses

unfoldable pub close_all_channels : Error → TransactionWorker → TransactionWorker
unfolding respond_all
close_all_channels e tw = record tw {
  responses = respond_all e tw.responses_channels tw.responses;
  closed = true;
}

-- A step of a caller (`AddTransaction`) or of the goroutine, from one state to the next.
pub data Step (tw tw' : TransactionWorker) : Type 0 where
  adds : (tx : FrontendTransaction) (c : ℕ) → add_transaction tx tw ≡ some (c, tw') → Step tw tw'
  -- The ticker has fired.
  takes :
      (tx : FrontendTransaction) (next : TransactionWorker)
      → tw.position ≡ at_select
      → next_transaction tw ≡ some (some tx, next)
      → tw' ≡ record next { position = holds tx }
      → Step tw tw'
  retrieves :
      (tx : FrontendTransaction)
      → tw.position ≡ holds tx
      → tw' ≡ record (retrieve_channel tx.nonce tw).1 {
        position = sends tx (retrieve_channel tx.nonce tw).0;
      }
      → Step tw tw'
  -- The proxy has answered. A send on a nil channel blocks for ever: there is no step for it.
  responds :
      (tx : FrontendTransaction) (c : ℕ) (response : TransactionResponse)
      → tw.position ≡ sends tx (some c)
      → tw' ≡ record tw { responses = (c, response) ∷ tw.responses; position = at_select }
      → Step tw tw'
  -- The context is cancelled.
  closes :
      (e : Error)
      → tw.position ≡ at_select
      → tw' ≡ record (close_all_channels e tw) { position = stopped }
      → Step tw tw'

pub data Reachable : TransactionWorker → Type 0 where
  made : Reachable new_transaction_worker
  further : {tw tw' : TransactionWorker} → Reachable tw → Step tw tw' → Reachable tw'
