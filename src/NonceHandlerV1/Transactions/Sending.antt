-- ===== src/NonceHandlerV1/Transactions/Sending.antt =====
-- `SendTransaction`: what is refused as a duplicate, and what is stored and sent.
use mx_sdk_erdgo.Prelude.{
  ℕ, ◌-◌, ◌<◌, ◌≡◌, ◌≢◌, ◌⊎◌, inl, inr, Bool-cases, Comparable, String, refl, sym, ap, ◌∙◌, Bool,
  true, false, ◌&&◌, some, [], ◌∷◌, arith, nat_eq, string_eq, bytes_eq, ◌==◌, if◌then◌else◌,
}
use mx_sdk_erdgo.Prelude.Exec.{Result, ok, err, panic, tx_already_sent, relabel}
use mx_sdk_erdgo.Dict.{Dict, lookup, insert, lookup-insert}
use mx_sdk_erdgo.Chain.{u64, Address, FrontendTransaction, PubkeyConverter, Proxy}
use mx_sdk_erdgo.NonceHandlerV1.{
  Pointer, Memory, AddressNonceHandler, is_among, is_the_same_receiver_data_value,
  is_tx_already_sent, decrement_computed_nonce, store_transaction, send_transaction,
}
use mx_sdk_erdgo.NonceHandlerV1.Transactions.{
  NonceTransactionsHandler, send, send_checked, on_handler,
}
use mx_sdk_erdgo.NonceHandlerV1.Transactions.Addresses.{handler_at, on_handler_outcome}

-- Two transactions do the same: nonces, gas, senders and signatures may differ.
abbrev pub DoesTheSame : FrontendTransaction → FrontendTransaction → Type 0
DoesTheSame old tx =
    (old.receiver ≡ tx.receiver) × (old.payload ≡ tx.payload) × (old.value ≡ tx.value)

abbrev pub Differs : FrontendTransaction → FrontendTransaction → Type 0
Differs old tx =
    (old.receiver ≢ tx.receiver) ⊎ ((old.payload ≢ tx.payload) ⊎ (old.value ≢ tx.value))

eq-cases :
    {K : Type 0} ⦃e : Comparable K⦄ (k l : K)
    → (((k == l) ≡ true) × (k ≡ l)) ⊎ (((k == l) ≡ false) × (k ≢ l))
eq-cases ⦃e⦄ k l = elim (Bool-cases (k == l)) [
  | inl same ↦ inl (same, (e.same_iff k l).0 same)
  | inr apart ↦ inr (apart, λ q. differ (sym apart ∙ (e.same_iff k l).1 q))
]
  where
    differ : false ≡ true → ⊥
    differ impossible = cc

same-cases :
    (old new : FrontendTransaction)
    → ((is_the_same_receiver_data_value old new ≡ true) × DoesTheSame old new)
      ⊎ ((is_the_same_receiver_data_value old new ≡ false) × Differs old new)
unfolding is_the_same_receiver_data_value
same-cases old new = elim (eq-cases old.receiver new.receiver) [
  | inr (test, apart) ↦ inr (rw test refl, inl apart)
  | inl (test, receiver) ↦ elim (eq-cases old.payload new.payload) [
    | inr (test', apart) ↦ inr (rw test (rw test' refl), inr (inl apart))
    | inl (test', payload) ↦ elim (eq-cases old.value new.value) [
      | inr (test'', apart) ↦ inr (rw test (rw test' (rw test'' refl)), inr (inr apart))
      | inl (test'', value) ↦ inl (rw test (rw test' (rw test'' refl)), (receiver, payload, value))
    ]
  ]
]

module _ (pointed_to : Pointer → FrontendTransaction) (tx : Pointer) where
  -- Some stored transaction, as it is now, does what this one does.
  abbrev pub IsRepeated : Dict ℕ Pointer → Type 0
  IsRepeated [] = ⊥
  IsRepeated ((n, old) ∷ m) = DoesTheSame (pointed_to old) (pointed_to tx) ⊎ IsRepeated m

  -- Every stored transaction differs from this one in what it does.
  abbrev pub IsNew : Dict ℕ Pointer → Type 0
  IsNew [] = Unit
  IsNew ((n, old) ∷ m) = Differs (pointed_to old) (pointed_to tx) × IsNew m

  is_among-cases :
      (m : Dict ℕ Pointer)
      → ((is_among pointed_to tx m ≡ true) × IsRepeated m)
        ⊎ ((is_among pointed_to tx m ≡ false) × IsNew m)
  unfolding is_among
  is_among-cases [] = inr (refl, tt)
  is_among-cases ((n, old) ∷ m) = elim (same-cases (pointed_to old) (pointed_to tx)) [
    | inl (test, same) ↦ inl (rw test refl, inl same)
    | inr (test, apart) ↦ elim (is_among-cases m) [
      | inl (among, later) ↦ inl (rw test among, inr later)
      | inr (among, new) ↦ inr (rw test among, (apart, new))
    ]
  ]

  Differs-absurd : (old new : FrontendTransaction) → DoesTheSame old new → Differs old new → ⊥
  Differs-absurd old new (receiver, payload, value) (inl apart) = apart receiver
  Differs-absurd old new (receiver, payload, value) (inr (inl apart)) = apart payload
  Differs-absurd old new (receiver, payload, value) (inr (inr apart)) = apart value

  IsNew-absurd : (m : Dict ℕ Pointer) → IsNew m → IsRepeated m → ⊥
  IsNew-absurd [] new h = h
  IsNew-absurd ((n, old) ∷ m) (apart, new) (inl same) =
      Differs-absurd (pointed_to old) (pointed_to tx) same apart
  IsNew-absurd ((n, old) ∷ m) (apart, new) (inr later) = IsNew-absurd m new later

  is_among-IsNew : (m : Dict ℕ Pointer) → IsNew m → is_among pointed_to tx m ≡ false
  is_among-IsNew m new = elim (is_among-cases m) [
    | inl (among, repeated) ↦ let impossible = IsNew-absurd m new repeated in elim impossible [ ]
    | inr (among, _) ↦ among
  ]

-- What `SendTransaction` hands on of the proxy's answer is not the error for a duplicate.
relabel-ne : (context : String) (r : Result String) → relabel context r ≢ err tx_already_sent
relabel-ne context (ok hash) = λ e. ground arith
relabel-ne context (err x) = λ e. ground arith
relabel-ne context panic = λ e. ground arith

module _ {W : Type 0} (proxy : Proxy W) (converter : PubkeyConverter) (memory : Memory W)
    (tx : Pointer) (check : Bool) (anh : AddressNonceHandler) (w : W) where
  send_checked_refuses :
      check && is_among (memory w) tx anh.transactions ≡ true
      → anh.computed_nonce < u64
      → send_checked proxy converter memory check tx (anh, w)
        ≡ (err tx_already_sent, (record anh { computed_nonce = anh.computed_nonce - 1 }, w))
  unfolding send_checked is_tx_already_sent decrement_computed_nonce
  send_checked_refuses among lt = rw among (ground arith)

  send_checked_sends :
      check && is_among (memory w) tx anh.transactions ≡ false
      → let (sent, w') = proxy.send_transaction (memory w tx) w in
        send_checked proxy converter memory check tx (anh, w) ≡ (
          relabel "while sending transaction for address" sent,
          (record anh { transactions = insert anh.transactions (memory w tx).nonce tx }, w'),
        )
  unfolding send_checked is_tx_already_sent send_transaction store_transaction
  send_checked_sends fresh = rw fresh refl

module _ {W : Type 0} (proxy : Proxy W) (converter : PubkeyConverter) (memory : Memory W)
    (tx : Pointer) (a : Address) (nth : NonceTransactionsHandler) (w : W)
    (decoded : converter.decode (memory w tx).sender ≡ ok a) where
  send-on_handler :
      send proxy converter memory (some tx) (nth, w)
      ≡ on_handler a (send_checked proxy converter memory nth.check_for_duplicates tx) (nth, w)
  unfolding send
  send-on_handler = rw decoded

  -- Where duplicates are checked for, a transaction is refused exactly if a stored one of its sender, as
  -- it is by then, has its receiver, its data and its value. Nothing is sent and nothing stored then, and
  -- the sender's nonce, a uint64, is taken back by one, if it is not 0.
  pub send_refuses_duplicate :
      nth.check_for_duplicates ≡ true
      → (handler_at nth a).computed_nonce < u64
      → let (r, (nth', w')) = send proxy converter memory (some tx) (nth, w) in
        (IsRepeated (memory w) tx (handler_at nth a).transactions
          × (r ≡ err tx_already_sent)
          × (w' ≡ w)
          × ((handler_at nth' a).transactions ≡ (handler_at nth a).transactions)
          × ((handler_at nth' a).computed_nonce ≡ (handler_at nth a).computed_nonce - 1))
        ⊎ (IsNew (memory w) tx (handler_at nth a).transactions × (r ≢ err tx_already_sent))
  send_refuses_duplicate check lt =
      let anh = handler_at nth a in
      rw send-on_handler (elim (is_among-cases (memory w) tx anh.transactions) [
        | inl (among, repeated) ↦
            let facts = on_handler_outcome a _ nth w w _ _ (
              send_checked_refuses proxy converter memory tx nth.check_for_duplicates anh w
                (rw check among) lt) in
            inl (
              repeated,
              facts.0,
              facts.1,
              ap (λ h. h.transactions) facts.2,
              ap (λ h. h.computed_nonce) facts.2,
            )
        | inr (among, new) ↦
            let facts = on_handler_outcome a _ nth w _ _ _ (
              send_checked_sends proxy converter memory tx nth.check_for_duplicates anh w
                (rw check among)) in
            inr (new, λ e. relabel-ne _ _ (sym facts.0 ∙ e))
      ])

  unless_checked :
      (check : Bool) (m : Dict ℕ Pointer)
      → (check ≡ false) ⊎ IsNew (memory w) tx m
      → check && is_among (memory w) tx m ≡ false
  unless_checked check m (inl unchecked) = rw unchecked refl
  unless_checked true m (inr new) = is_among-IsNew (memory w) tx m new
  unless_checked false m (inr new) = refl

  -- Where duplicates are not checked for, or each stored transaction of the sender, as it is by then, has
  -- another receiver, other data or another value: the transaction is stored under its nonce, and sent
  -- once. It is stored too where the proxy fails to send it. The sender's other stored transactions and
  -- its nonce stay.
  pub send_stores_and_sends :
      (nth.check_for_duplicates ≡ false) ⊎ IsNew (memory w) tx (handler_at nth a).transactions
      → let (r, (nth', w')) = send proxy converter memory (some tx) (nth, w) in
        let (sent, w'') = proxy.send_transaction (memory w tx) w in
        (r ≡ relabel "while sending transaction for address" sent)
        × (w' ≡ w'')
        × ((n : ℕ)
            → lookup (handler_at nth' a).transactions n ≡ (
                if (memory w tx).nonce == n
                then some tx
                else lookup (handler_at nth a).transactions n))
        × ((handler_at nth' a).computed_nonce ≡ (handler_at nth a).computed_nonce)
  send_stores_and_sends fresh =
      let anh = handler_at nth a in
      let facts = on_handler_outcome a _ nth w _ _ _ (
        send_checked_sends proxy converter memory tx nth.check_for_duplicates anh w
          (unless_checked nth.check_for_duplicates anh.transactions fresh)) in
      rw send-on_handler (
        facts.0,
        facts.1,
        λ n. rw (facts.2) (lookup-insert anh.transactions (memory w tx).nonce n tx),
        ap (λ h. h.computed_nonce) facts.2,
      )
