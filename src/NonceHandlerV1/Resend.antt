-- ===== src/NonceHandlerV1/Resend.antt =====
-- What a resend sweep keeps, drops and sends.
use mx_sdk_erdgo.Prelude.{
  ℕ, ◌≡◌, ◌≢◌, refl, ap, false, none, List, [], ◌∷◌, arith, leb, ◌==◌, nat_eq, if◌then◌else◌, map,
}
use mx_sdk_erdgo.Prelude.Exec.{ok}
use mx_sdk_erdgo.Dict.{Dict, lookup, values}
use mx_sdk_erdgo.Chain.{FrontendTransaction, Account, PubkeyConverter, Proxy}
use mx_sdk_erdgo.NonceHandlerV1.{
  Pointer, Memory, AddressNonceHandler, sweep, collect_resendable, re_send,
  re_send_transactions_if_required,
}

module _ (account_nonce : ℕ) where
  -- What is sent again is what stays stored.
  sweep-values : (m : Dict ℕ Pointer) → (sweep account_nonce m).0 ≡ values (sweep account_nonce m).1
  unfolding sweep
  sweep-values [] = refl
  sweep-values ((n, tx) ∷ m) = ground (arith, sweep-values m)

  pub lookup-sweep :
      (m : Dict ℕ Pointer) (n : ℕ)
      → lookup (sweep account_nonce m).1 n ≡ (if leb n account_nonce then none else lookup m n)
  unfolding sweep lookup
  lookup-sweep [] n = ground arith
  lookup-sweep ((k, tx) ∷ m) n = ground (arith, lookup-sweep m n)

module _ {W : Type 0} (proxy : Proxy W) where
  -- The world behind the one call of `SendTransactions`, which an empty list does without.
  unfoldable pub resent : List FrontendTransaction → W → W
  resent [] w = w
  resent (tx ∷ txs) w = (proxy.send_transactions (tx ∷ txs) w).1

  module _ (converter : PubkeyConverter) (memory : Memory W) where
    pub re_send_state :
        (txs : List Pointer) (anh : AddressNonceHandler) (w : W)
        → (re_send proxy converter memory txs (anh, w)).1 ≡ (anh, resent (map (memory w) txs) w)
    unfolding re_send resent
    re_send_state [] anh w = refl
    re_send_state (tx ∷ txs) anh w = ground arith

    module _ (anh : AddressNonceHandler) (w w' : W) (account : Account)
        (fetched : proxy.get_account anh.address w ≡ (ok account, w')) where
      -- A sweep at which the account's nonce is not the stored one keeps exactly the transactions
      -- with a nonce above the account's. It sends exactly what these are by then, in one call, or
      -- nothing if there are none, and leaves the nonces alone.
      pub re_send_keeps_and_sends :
          account.nonce ≢ anh.computed_nonce
          → let (anh', w'') =
              (re_send_transactions_if_required proxy converter memory (anh, w)).1 in
            ((n : ℕ)
              → lookup anh'.transactions n
                ≡ (if leb n account.nonce then none else lookup anh.transactions n))
            × (w'' ≡ resent (map (memory w') (values anh'.transactions)) w')
            × (anh'.computed_nonce ≡ anh.computed_nonce)
            × (anh'.computed_nonce_was_set ≡ anh.computed_nonce_was_set)
      unfolding re_send_transactions_if_required collect_resendable
      re_send_keeps_and_sends ne = rw fetched (
          rw not_stored (
            rw re_send_state (
              lookup-sweep account.nonce anh.transactions,
              ap (λ txs. resent (map (memory w') txs) w')
                  (sweep-values account.nonce anh.transactions),
              refl,
              refl,
            )))
        where
          not_stored : (account.nonce == anh.computed_nonce) ≡ false
          not_stored = ground arith

      -- A sweep at which the account's nonce is the stored one forgets every transaction, the one
      -- with that nonce too, and sends nothing.
      re_send_forgets :
          account.nonce ≡ anh.computed_nonce
          → (re_send_transactions_if_required proxy converter memory (anh, w)).1
            ≡ (record anh { transactions = [] }, w')
      unfolding re_send_transactions_if_required collect_resendable re_send
      re_send_forgets e = rw fetched (ground arith)
