-- ===== src/Worker/Queue.antt =====
-- The queue of the worker implements the interface of container/heap, and is ordered by the nonces.
use mx_sdk_erdgo.Prelude.{
  ℕ, zero, suc, ◌-◌, ◌≡◌, refl, ap, some, List, [], ◌∷◌, ◌++◌, map, arith, length, take, at, write,
  at-within, write-Exchanged, nat_eq,
}
use mx_sdk_erdgo.Chain.{FrontendTransaction}
use mx_sdk_erdgo.BigInt.{pos}
use mx_sdk_erdgo.Heap.Order.{Implements}
use mx_sdk_erdgo.Worker.{
  TransactionQueueItem, TransactionQueue, push, pop, swap, less, transaction_queue,
}

abbrev pub tx_of : TransactionQueueItem → FrontendTransaction
tx_of item = item.tx

-- The transactions in the queue.
abbrev pub txs_of : TransactionQueue → List FrontendTransaction
txs_of = map tx_of

abbrev pub nonce_of : FrontendTransaction → ℕ
nonce_of tx = tx.nonce

length-txs_of : (tq : TransactionQueue) → length tq ≡ length (txs_of tq)
length-txs_of [] = refl
length-txs_of (x ∷ tq) = ap suc (length-txs_of tq)

at-txs_of :
    (tq : TransactionQueue) (i : ℕ) (x : TransactionQueueItem)
    → at tq i ≡ some x
    → at (txs_of tq) i ≡ some x.tx
at-txs_of [] i x e = ground arith
at-txs_of (y ∷ tq) zero x e = let same : y ≡ x = ground arith in rw same refl
at-txs_of (y ∷ tq) (suc i) x e = at-txs_of tq i x e

write-txs_of :
    (tq : TransactionQueue) (i : ℕ) (x : TransactionQueueItem)
    → txs_of (write tq i x) ≡ write (txs_of tq) i x.tx
write-txs_of [] i x = refl
write-txs_of (y ∷ tq) zero x = refl
write-txs_of (y ∷ tq) (suc i) x = ap (◌∷◌ y.tx) (write-txs_of tq i x)

append-txs_of :
    (tq : TransactionQueue) (x : TransactionQueueItem)
    → txs_of (tq ++ (x ∷ [])) ≡ txs_of tq ++ (x.tx ∷ [])
append-txs_of [] x = refl
append-txs_of (y ∷ tq) x = ap (◌∷◌ y.tx) (append-txs_of tq x)

-- A slice of `suc n` items is its first `n` and the last.
pop_txs_of :
    (tq : TransactionQueue) (n : ℕ) (x : TransactionQueueItem)
    → length tq ≡ suc n
    → at tq n ≡ some x
    → txs_of tq ≡ txs_of (take n tq) ++ (x.tx ∷ [])
pop_txs_of [] n x size e = absurd (omega arith)
pop_txs_of (y ∷ []) zero x size e = let same : y ≡ x = ground arith in rw same refl
pop_txs_of (y ∷ (z ∷ tq)) zero x size e = absurd (omega arith)
pop_txs_of (y ∷ tq) (suc n) x size e = ap (◌∷◌ y.tx) (pop_txs_of tq n x (omega arith) e)

-- The methods of the queue do what container/heap needs, for any indices within the queue.
pub transaction_queue-Implements : Implements transaction_queue txs_of tx_of nonce_of
unfolding transaction_queue push pop swap less
transaction_queue-Implements = record {
  len_law = length-txs_of;
  less_law = λ i j tq hi hj.
      let l = length-txs_of tq in
      let (x, ei) = at-within tq i (omega arith) in
      let (y, ej) = at-within tq j (omega arith) in
      rw ei (rw ej (rw (at-txs_of tq i x ei) (rw (at-txs_of tq j y ej) refl)));
  swap_law = λ i j tq hi hj.
      let l = length-txs_of tq in
      let (x, ei) = at-within tq i (omega arith) in
      let (y, ej) = at-within tq j (omega arith) in
      rw ei (
        rw ej (
          _,
          refl,
          rw (write-txs_of (write tq i (record y { index = pos i })) j (record x { index = pos j }))
              (rw (write-txs_of tq i (record y { index = pos i })) (
                write-Exchanged (txs_of tq) i j x.tx y.tx hi hj (at-txs_of tq i x ei)
                  (at-txs_of tq j y ej))),
        ));
  push_law = λ x tq. append-txs_of tq (record x { index = pos (length tq) });
  pop_law = λ tq some_left.
      let l = length-txs_of tq in
      let (x, e) = at-within tq (length tq - 1) (omega arith) in
      rw e (_, refl, pop_txs_of tq (length tq - 1) x (omega arith) e);
}
