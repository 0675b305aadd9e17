-- ===== src/TransactionInteractor/Bunches.antt =====
-- How the accumulated transactions are cut into bunches, and what is sent.
use mx_sdk_erdgo.Prelude.{
  ℕ, zero, suc, ◌+◌, ◌≤◌, ◌<◌, ◌≡◌, refl, sym, ap, ◌∙◌, String, Option, none, some, List, [], ◌∷◌,
  ◌++◌, append_assoc, append-nil, arith, length, length-append, take, drop, length-take,
  length-drop, take-append-drop, ltb, Bool-cases, inl, inr,
}
use mx_sdk_erdgo.Prelude.Exec.{Exec, Result, ok, err, panic, ◌>>=◌, pure, lift}
use mx_sdk_erdgo.Chain.{FrontendTransaction, Proxy}
use mx_sdk_erdgo.TransactionInteractor.{
  TransactionInteractor, add_transaction, next_bunch, pop_accumulated_transactions, send_bunches,
  send_transactions_as_bunch,
}

abbrev pub concat : {A : Type 0} → List (List A) → List A
concat [] = []
concat (b ∷ bs) = b ++ concat bs

-- All bunches are full, but the last one may be smaller; it is not empty.
abbrev pub AreBunches : ℕ → List (List FrontendTransaction) → Type 0
AreBunches n [] = Unit
AreBunches n (b ∷ []) = (0 < length b) × (length b ≤ n)
AreBunches n (b ∷ (c ∷ bs)) = (length b ≡ n) × AreBunches n (c ∷ bs)

module _ {W : Type 0} (proxy : Proxy W) where
  -- The bunches are sent one behind the other, until one of them fails.
  unfoldable pub send_each : List (List FrontendTransaction) → List String → Exec W (List String)
  send_each [] all_hashes = pure all_hashes
  send_each (b ∷ bs) all_hashes = do
    hashes ← proxy.send_transactions b
    send_each bs (all_hashes ++ hashes)

  -- The loop behaves as `send_each` on these bunches.
  record Sends (n fuel : ℕ) (txs : List FrontendTransaction) (bs : List (List FrontendTransaction))
      : Type 0 where
    whole : concat bs ≡ txs
    sized : AreBunches n bs
    runs :
        (hashes : List String) (ti : TransactionInteractor) (w : W)
        → send_bunches proxy fuel n txs hashes (ti, w)
          ≡ ((send_each bs hashes w).0, (ti, (send_each bs hashes w).1))

  AreBunches-cons :
      (n : ℕ) (b : List FrontendTransaction) (bs : List (List FrontendTransaction))
      → 0 < n
      → length b ≡ n
      → AreBunches n bs
      → AreBunches n (b ∷ bs)
  AreBunches-cons n b [] pos full sized = (omega arith, omega arith)
  AreBunches-cons n b (c ∷ bs) pos full sized = (full, sized)

  send_bunches-nil :
      (fuel n : ℕ) (hashes : List String) (s : TransactionInteractor × W)
      → send_bunches proxy fuel n [] hashes s ≡ (ok hashes, s)
  unfolding send_bunches
  send_bunches-nil zero n hashes s = refl
  send_bunches-nil (suc fuel) n hashes s = refl

  Sends-go_on :
      (n fuel : ℕ) (rest : List FrontendTransaction) (bs : List (List FrontendTransaction))
      (hashes : List String) (ti : TransactionInteractor)
      → Sends n fuel rest bs
      → (r : Result (List String)) (w : W)
      → (lift r >>= λ hs. send_bunches proxy fuel n rest (hashes ++ hs)) (ti, w) ≡ (
        ((lift r >>= λ hs. send_each bs (hashes ++ hs)) w).0,
        (ti, ((lift r >>= λ hs. send_each bs (hashes ++ hs)) w).1),
      )
  Sends-go_on n fuel rest bs hashes ti sends (ok hs) w = sends.runs (hashes ++ hs) ti w
  Sends-go_on n fuel rest bs hashes ti sends (err e) w = refl
  Sends-go_on n fuel rest bs hashes ti sends panic w = refl

  -- A round that sends `b` and leaves `rest`.
  Sends-round :
      (n fuel : ℕ) (txs b rest : List FrontendTransaction) (bs : List (List FrontendTransaction))
      → next_bunch n txs ≡ (b, rest)
      → 0 < length txs
      → b ++ rest ≡ txs
      → AreBunches n (b ∷ bs)
      → Sends n fuel rest bs
      → Sends n (suc fuel) txs (b ∷ bs)
  unfolding send_bunches send_each
  Sends-round n fuel [] b rest bs cut some_left e sized sends = ground arith
  Sends-round n fuel (tx ∷ txs) b rest bs cut some_left e sized sends = record {
    whole = rw (sends.whole) e;
    sized = sized;
    runs = λ hashes ti w.
        let (r, w') = proxy.send_transactions b w in
        rw cut (Sends-go_on n fuel rest bs hashes ti sends r w');
  }

  send_bunches-Sends :
      (n fuel : ℕ) (txs : List FrontendTransaction)
      → 0 < n
      → length txs ≤ fuel
      → (bs : List (List FrontendTransaction)) × Sends n fuel txs bs
  unfolding next_bunch send_each
  send_bunches-Sends n fuel [] pos le = (
    [],
    record { whole = refl; sized = tt; runs = λ hs ti w. send_bunches-nil fuel n hs (ti, w) },
  )
  send_bunches-Sends n zero (tx ∷ txs) pos le = ground arith
  send_bunches-Sends n (suc fuel) (tx ∷ txs) pos le =
      let all = tx ∷ txs in
      let shorter : length (drop n all) ≤ fuel = let l = length-drop n all in omega arith in
      let (bs, sends) = send_bunches-Sends n fuel (drop n all) pos shorter in
      elim (Bool-cases (ltb n (length all))) [
        | inl more ↦
            let full : length (take n all) ≡ n = let l = length-take n all in ground arith in
            (
              take n all ∷ bs,
              Sends-round n fuel all (take n all) (drop n all) bs (rw more refl) (omega arith)
                  (take-append-drop n all)
                  (AreBunches-cons n (take n all) bs pos full (sends.sized)) sends,
            )
        | inr last ↦ (
          all ∷ [],
          Sends-round n fuel all all [] [] (rw last refl) (omega arith) (append-nil all)
              (omega arith, ground arith)
              (record {
                whole = refl;
                sized = tt;
                runs = λ hs ti w. send_bunches-nil fuel n hs (ti, w);
              }),
        )
      ]

  -- With a bunch size above 0 everything that is accumulated is cut into bunches of that size, of
  -- which only the last may be smaller. They are sent in their order, until one fails, and the hashes
  -- come back in that order. The accumulator is empty afterwards, also where a bunch has failed.
  pub send_transactions_as_bunch_lem :
      (n : ℕ) (ti : TransactionInteractor) (w : W)
      → 0 < n
      → (bs : List (List FrontendTransaction)) × (concat bs ≡ ti.tx_accumulator)
        × AreBunches n bs
        × (send_transactions_as_bunch proxy n (ti, w)
            ≡ ((send_each bs [] w).0, (record ti { tx_accumulator = [] }, (send_each bs [] w).1)))
  unfolding send_transactions_as_bunch pop_accumulated_transactions
  send_transactions_as_bunch_lem zero ti w pos = ground arith
  send_transactions_as_bunch_lem (suc n) ti w pos =
      let txs = ti.tx_accumulator in
      let (bs, sends) = send_bunches-Sends (suc n) (length txs) txs pos (omega arith) in
      (bs, sends.whole, sends.sized, sends.runs [] (record ti { tx_accumulator = [] }) w)

  send_each-length :
      ((txs : List FrontendTransaction) (w : W)
        → (hs : List String) × ((proxy.send_transactions txs w).0 ≡ ok hs)
          × (length hs ≡ length txs))
      → (bs : List (List FrontendTransaction)) (hashes : List String) (w : W)
      → (hs : List String) × ((send_each bs hashes w).0 ≡ ok hs)
        × (length hs ≡ length hashes + length (concat bs))
  unfolding send_each
  send_each-length answers [] hashes w = (hashes, refl, omega arith)
  send_each-length answers (b ∷ bs) hashes w =
      let (hs, sent, l) = answers b w in
      let w' = (proxy.send_transactions b w).1 in
      let (all, e, l') = send_each-length answers bs (hashes ++ hs) w' in
      let l1 = length-append hashes hs in
      let l2 = length-append b (concat bs) in (all, rw sent e, omega arith)

  -- If the proxy answers every bunch with a hash for each of its transactions, the call returns a
  -- hash for each accumulated transaction.
  send_transactions_as_bunch-length :
      ((txs : List FrontendTransaction) (w : W)
        → (hs : List String) × ((proxy.send_transactions txs w).0 ≡ ok hs)
          × (length hs ≡ length txs))
      → (n : ℕ) (ti : TransactionInteractor) (w : W) → 0 < n
      → (hs : List String) × ((send_transactions_as_bunch proxy n (ti, w)).0 ≡ ok hs)
        × (length hs ≡ length ti.tx_accumulator)
  send_transactions_as_bunch-length answers n ti w pos =
      let (bs, whole, sized, runs) = send_transactions_as_bunch_lem n ti w pos in
      let (hs, e, l) = send_each-length answers bs [] w in
      let counted : length hs ≡ length ti.tx_accumulator = l ∙ rw whole (omega arith) in
      (hs, ap (λ r. r.0) runs ∙ e, counted)

-- The transactions that are not nil.
abbrev pub present : List (Option FrontendTransaction) → List FrontendTransaction
present [] = []
present (none ∷ txs) = present txs
present (some tx ∷ txs) = tx ∷ present txs

unfoldable pub add_all :
    List (Option FrontendTransaction) → TransactionInteractor → TransactionInteractor
add_all [] ti = ti
add_all (tx ∷ txs) ti = add_all txs (add_transaction tx ti).1

-- What is popped is what was accumulated and then what was added, in the order of the calls and
-- without the nil transactions; a second pop returns nothing.
pop-add_all :
    (txs : List (Option FrontendTransaction)) (ti : TransactionInteractor)
    → ((pop_accumulated_transactions (add_all txs ti)).0 ≡ ti.tx_accumulator ++ present txs)
      × ((pop_accumulated_transactions (pop_accumulated_transactions (add_all txs ti)).1).0 ≡ [])
unfolding pop_accumulated_transactions add_all add_transaction
pop-add_all [] ti = (sym (append-nil ti.tx_accumulator), refl)
pop-add_all (none ∷ txs) ti = pop-add_all txs ti
pop-add_all (some tx ∷ txs) ti =
    let (e, f) = pop-add_all txs (record ti { tx_accumulator = ti.tx_accumulator ++ (tx ∷ []) }) in
    (e ∙ append_assoc ti.tx_accumulator (tx ∷ []) (present txs), f)
