-- ===== src/Worker/Sound.antt =====
-- What the worker keeps true of its queue, its map and its channels, and that its calls return.
use mathlib.Core.Option.{some-injective}
use mx_sdk_erdgo.Prelude.{
  ℕ, ◌+◌, ◌≤◌, ◌<◌, ◌≡◌, refl, sym, ◌∙◌, Bool, true, false, Option-cases, inl, inr, Option, none,
  some, List, ◌∷◌, arith, Perm, length, amount, amount-perm, ltb, ◌==◌, nat_eq, if◌then◌else◌,
}
use mx_sdk_erdgo.Prelude.Exec.{Error, worker_closed}
use mx_sdk_erdgo.Dict.{Dict, lookup, HasUniqueKeys, insert-HasUniqueKeys}
use mx_sdk_erdgo.Dict.Entries.{amount-insert}
use mx_sdk_erdgo.Chain.{FrontendTransaction}
use mx_sdk_erdgo.BigInt.{pos}
use mx_sdk_erdgo.Heap.Order.{Gives, Gives-bind, Gives-if, IsHeap, key_at, root_least}
use mx_sdk_erdgo.Heap.Rise.{heap_push-Ordered}
use mx_sdk_erdgo.Heap.Sink.{heap_pop-Popped}
use mx_sdk_erdgo.Worker.{
  TransactionResponse, TransactionQueue, Position, at_select, stopped, holds, sends,
  TransactionWorker, answered_at_once, schedule, add_transaction, next_transaction,
}
use mx_sdk_erdgo.Worker.Queue.{txs_of, nonce_of, transaction_queue-Implements}

-- The nonce that the goroutine has taken from the queue, with its channel still in the map.
abbrev pub held : ℕ → Position → ℕ
held n at_select = 0
held n stopped = 0
held n (holds tx) = if tx.nonce == n then 1 else 0
held n (sends tx o) = 0

-- The channel that the goroutine is to send on.
abbrev pub sending : ℕ → Position → ℕ
sending c at_select = 0
sending c stopped = 0
sending c (holds tx) = 0
sending c (sends tx none) = 0
sending c (sends tx (some d)) = if d == c then 1 else 0

abbrev pub nil_channels : Position → ℕ
nil_channels at_select = 0
nil_channels stopped = 0
nil_channels (holds tx) = 0
nil_channels (sends tx none) = 1
nil_channels (sends tx (some d)) = 0

abbrev pub is_stopped : Position → Bool
is_stopped at_select = false
is_stopped stopped = true
is_stopped (holds tx) = false
is_stopped (sends tx o) = false

abbrev pub keys_at : ℕ → Dict ℕ ℕ → ℕ
keys_at n = amount (λ (j, d). j == n)

abbrev pub channels_at : ℕ → Dict ℕ ℕ → ℕ
channels_at c = amount (λ (j, d). d == c)

abbrev pub responses_at : ℕ → List (ℕ × TransactionResponse) → ℕ
responses_at c = amount (λ (d, r). d == c)

-- The responses that the goroutine has still to send on a channel.
abbrev pub pending : ℕ → TransactionWorker → ℕ
pending c tw =
    (if tw.closed then 0 else channels_at c tw.responses_channels) + sending c tw.position

abbrev pub nonces_at : ℕ → TransactionQueue → ℕ
nonces_at n tq = amount (λ tx. tx.nonce == n) (txs_of tq)

pub record IsSound (tw : TransactionWorker) : Type 0 where
  pub order : IsHeap nonce_of (length (txs_of tw.tq)) (txs_of tw.tq)
  pub unique : HasUniqueKeys tw.responses_channels
  pub scheduled : (n : ℕ) → keys_at n tw.responses_channels ≡ nonces_at n tw.tq + held n tw.position
  pub answered :
      (c : ℕ) → responses_at c tw.responses + pending c tw ≡ (if ltb c tw.channels then 1 else 0)
  pub ended : tw.closed ≡ is_stopped tw.position
  pub no_nil : nil_channels tw.position ≡ 0

pub Gives-known :
    {A : Type 0} {P : A → Type 0} {o : Option A} {a : A} → Gives P o → o ≡ some a → P a
Gives-known {a = a} (b, e, p) f =
    let same : b ≡ a = some-injective b a (sym e ∙ f) in rw (sym same) p

answered_at_once-IsSound :
    (e : Error) (tw : TransactionWorker) → IsSound tw → IsSound (answered_at_once e tw).1
unfolding answered_at_once
answered_at_once-IsSound e tw s = record {
  order = s.order;
  unique = s.unique;
  scheduled = s.scheduled;
  answered = λ c. ground (arith, s.answered c);
  ended = s.ended;
  no_nil = s.no_nil;
}

schedule-IsSound :
    (tx : FrontendTransaction) (tw : TransactionWorker)
    → IsSound tw
    → tw.closed ≡ false
    → Gives (λ (c, tw'). IsSound tw') (schedule (lookup tw.responses_channels tx.nonce) tx tw)
unfolding schedule
schedule-IsSound tx tw s working = elim (Option-cases (lookup tw.responses_channels tx.nonce)) [
  | inr (d, taken) ↦ rw taken (_, refl, answered_at_once-IsSound _ tw s)
  | inl free ↦ rw free (
      Gives-bind
        (heap_push-Ordered transaction_queue-Implements (record { tx = tx; index = pos 0 }) tw.tq
          s.order)
        λ tq' (order, same). (
          _,
          refl,
          record {
            order = order;
            unique = insert-HasUniqueKeys tw.responses_channels tx.nonce tw.channels s.unique;
            scheduled = λ n.
                let keys =
                  amount-insert (λ (j, d). j == n) tw.responses_channels tx.nonce tw.channels
                    free in
                let more = amount-perm (λ t. t.nonce == n) same in
                let before = s.scheduled n in ground arith;
            answered = λ c.
                let inserted =
                  amount-insert (λ (j, d). d == c) tw.responses_channels tx.nonce tw.channels
                    free in
                let before = s.answered c in ground arith;
            ended = s.ended;
            no_nil = s.no_nil;
          },
        ))
]

-- `AddTransaction` neither panics nor runs on.
pub add_transaction-IsSound :
    (tx : FrontendTransaction) (tw : TransactionWorker)
    → IsSound tw
    → Gives (λ (c, tw'). IsSound tw') (add_transaction tx tw)
unfolding add_transaction
add_transaction-IsSound tx tw s =
    Gives-if tw.closed (λ done. (_, refl, answered_at_once-IsSound worker_closed tw s))
      (λ working. schedule-IsSound tx tw s working)

-- What `nextTransaction` returns: nil for an empty queue, or a transaction with the least nonce, which
-- leaves the queue.
pub data Next (tw : TransactionWorker)
    : Option FrontendTransaction × TransactionWorker → Type 0 where
  nothing : length tw.tq ≡ 0 → Next tw (none, tw)
  least :
      (tx : FrontendTransaction) (tq : TransactionQueue)
      → IsHeap nonce_of (length (txs_of tq)) (txs_of tq)
      → Perm (txs_of tw.tq) (tx ∷ txs_of tq)
      → ((i : ℕ) → i < length (txs_of tw.tq) → tx.nonce ≤ key_at nonce_of (txs_of tw.tq) i)
      → Next tw (some tx, record tw { tq = tq })

-- On a heap `nextTransaction` neither panics nor runs on.
pub next_transaction-Next :
    (tw : TransactionWorker)
    → IsHeap nonce_of (length (txs_of tw.tq)) (txs_of tw.tq)
    → Gives (Next tw) (next_transaction tw)
unfolding next_transaction
next_transaction-Next tw order =
    Gives-if (length tw.tq == 0) (λ empty. (_, refl, nothing (ground arith)))
      (λ some_left.
        let l : length tw.tq ≡ length (txs_of tw.tq) = transaction_queue-Implements.len_law tw.tq in
        let size : 0 < length (txs_of tw.tq) = ground arith in
        Gives-bind (heap_pop-Popped transaction_queue-Implements tw.tq order size) λ (item, tq') p.
          (
            _,
            refl,
            least item.tx tq' p.order p.same λ i lt.
                let root = root_least nonce_of _ (txs_of tw.tq) i order lt in
                let first = p.first in ground arith,
          ))
