-- ===== src/NonceHandlerV1/Aliasing.antt =====
-- The handler keeps the caller's pointer to a transaction, and not a copy of it.
use mx_sdk_erdgo.Prelude.{
  ℕ, ◌<◌, ◌≡◌, ◌≢◌, ◌⊎◌, inl, inr, Bool-cases, List, [], ◌∷◌, refl, some, ◌∙◌, ap, sym, arith, leb,
  nat_eq, nat_beq_iff, ◌==◌, map, false,
}
use mathlib.Core.Option.{some-injective}
use mx_sdk_erdgo.Prelude.Exec.{ok}
use mx_sdk_erdgo.Dict.{Dict, lookup, lookup-insert, values}
use mx_sdk_erdgo.Chain.{FrontendTransaction, Account, PubkeyConverter, Proxy}
use mx_sdk_erdgo.NonceHandlerV1.{
  Pointer, Memory, AddressNonceHandler, store_transaction, send_transaction,
  re_send_transactions_if_required,
}
use mx_sdk_erdgo.NonceHandlerV1.Resend.{resent, re_send_keeps_and_sends}

abbrev pub IsIn : FrontendTransaction → List FrontendTransaction → Type 0
IsIn tx [] = ⊥
IsIn tx (first ∷ rest) = (tx ≡ first) ⊎ IsIn tx rest

stored-IsIn :
    (pointed_to : Pointer → FrontendTransaction) (m : Dict ℕ Pointer) (n : ℕ) (tx : Pointer)
    → lookup m n ≡ some tx
    → IsIn (pointed_to tx) (map pointed_to (values m))
unfolding lookup
stored-IsIn pointed_to [] n tx e = cc
stored-IsIn pointed_to ((k, p) ∷ m) n tx e = elim (Bool-cases (k == n)) [
  | inl here ↦
      let found : some p ≡ some tx = rw here at e in
      inl (ap pointed_to (sym (some-injective p tx found)))
  | inr later ↦ inr (stored-IsIn pointed_to m n tx (rw later at e))
]

module _ {W : Type 0} (proxy : Proxy W) (converter : PubkeyConverter) (memory : Memory W)
    (anh : AddressNonceHandler) (tx : Pointer) (w : W) where
  send_transaction-stored :
      lookup
        (send_transaction proxy converter memory tx (anh, w)).1.0.transactions
        (memory w tx).nonce
      ≡ some tx
  unfolding send_transaction store_transaction
  send_transaction-stored =
      rw lookup-insert (rw ((nat_beq_iff (memory w tx).nonce (memory w tx).nonce).1 refl) refl)

  -- A transaction is sent. Later, whatever the caller has written to it by then, a sweep finds the
  -- account below the nonce at which it was sent, and not at the handler's nonce. The pointer then
  -- stays under the old nonce, and what the sweep sends, in one call, is what the pointers that stay point
  -- to by then: of this transaction, what the caller has made of it, and not what was sent.
  pub send_then_re_send :
      (later fetched : W) (account : Account)
      → let anh' = (send_transaction proxy converter memory tx (anh, w)).1.0 in
        proxy.get_account anh'.address later ≡ (ok account, fetched)
        → account.nonce < (memory w tx).nonce
        → account.nonce ≢ (send_transaction proxy converter memory tx (anh, w)).1.0.computed_nonce
        → let anh' = (send_transaction proxy converter memory tx (anh, w)).1.0 in
          let (anh'', end) =
            (re_send_transactions_if_required proxy converter memory (anh', later)).1 in
          (lookup anh''.transactions (memory w tx).nonce ≡ some tx)
          × IsIn (memory fetched tx) (map (memory fetched) (values anh''.transactions))
          × (end ≡ resent proxy (map (memory fetched) (values anh''.transactions)) fetched)
  send_then_re_send later fetched account asked lt ne =
      let anh' = (send_transaction proxy converter memory tx (anh, w)).1.0 in
      let swept =
        re_send_keeps_and_sends proxy converter memory anh' later fetched account asked ne in
      let above : leb (memory w tx).nonce account.nonce ≡ false = ground arith in
      let kept = swept.0 (memory w tx).nonce ∙ rw above send_transaction-stored in
      (kept, stored-IsIn (memory fetched) _ (memory w tx).nonce tx kept, swept.1)
