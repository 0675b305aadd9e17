-- ===== src/NonceHandlerV2/Resend.antt =====
-- What a resend sweep keeps, drops and sends, and the lowest nonce that it leaves.
use mx_sdk_erdgo.Prelude.{
  ℕ, ◌≤◌, ◌≡◌, ◌≢◌, ◌⊎◌, inl, inr, refl, ap, ◌∙◌, nat_beq_iff, false, none, some, List, [], ◌∷◌,
  arith, leb, ◌==◌, nat_eq, if◌then◌else◌, Bool-cases, min,
}
use mx_sdk_erdgo.Prelude.Exec.{ok}
use mx_sdk_erdgo.Dict.{Dict, lookup, values}
use mx_sdk_erdgo.Chain.{FrontendTransaction, Account, PubkeyConverter, Proxy}
use mx_sdk_erdgo.NonceHandlerV1.Resend.{resent}
use mx_sdk_erdgo.NonceHandlerV2.{
  AddressNonceHandler, sweep, collect_resendable, re_send, re_send_transactions_if_required,
}

-- `lowest` is a lower bound of the keys, and one of them unless it is the bound `start`.
pub record IsLowest (start lowest : ℕ) (m : Dict ℕ FrontendTransaction) : Type 0 where
  pub below_start : lowest ≤ start
  pub below_keys : (n : ℕ) (tx : FrontendTransaction) → lookup m n ≡ some tx → lowest ≤ n
  pub attained : (lowest ≡ start) ⊎ ((tx : FrontendTransaction) × (lookup m lowest ≡ some tx))

module _ (a start : ℕ) where
  sweep-values : (m : Dict ℕ FrontendTransaction) → (sweep a start m).0 ≡ values (sweep a start m).1
  unfolding sweep
  sweep-values [] = refl
  sweep-values ((n, tx) ∷ m) = ground (arith, sweep-values m)

  lookup-sweep :
      (m : Dict ℕ FrontendTransaction) (n : ℕ)
      → lookup (sweep a start m).1 n ≡ (if leb n a then none else lookup m n)
  unfolding sweep lookup
  lookup-sweep [] n = ground arith
  lookup-sweep ((k, tx) ∷ m) n = ground (arith, lookup-sweep m n)

  attained_cons :
      (l k : ℕ) (tx : FrontendTransaction) (m : Dict ℕ FrontendTransaction)
      → (l ≡ start) ⊎ ((t : FrontendTransaction) × (lookup m l ≡ some t))
      → (min k l ≡ start) ⊎ ((t : FrontendTransaction) × (lookup ((k, tx) ∷ m) (min k l) ≡ some t))
  unfolding lookup
  attained_cons l k tx m old = elim (Bool-cases (leb k l)) [
    | inl le ↦
        let e : min k l ≡ k = ground arith in inr (tx, rw e (rw ((nat_beq_iff k k).1 refl) refl))
    | inr gt ↦
        let e : min k l ≡ l = ground arith in
        let ne : (k == l) ≡ false = ground arith in
        elim old [ inl s ↦ inl (e ∙ s) | inr (t, h) ↦ inr (t, rw e (rw ne h)) ]
  ]

  cons-IsLowest :
      (l k : ℕ) (tx : FrontendTransaction) (m : Dict ℕ FrontendTransaction)
      → IsLowest start l m
      → IsLowest start (min k l) ((k, tx) ∷ m)
  unfolding lookup
  cons-IsLowest l k tx m v = record {
    below_start = ground (arith, v.below_start);
    below_keys = λ n t h. ground (arith, v.below_keys n t, h);
    attained = attained_cons l k tx m v.attained;
  }

  sweep-IsLowest :
      (m : Dict ℕ FrontendTransaction) → IsLowest start (sweep a start m).2 (sweep a start m).1
  unfolding sweep
  sweep-IsLowest [] = record {
    below_start = omega arith;
    below_keys = λ n tx h. unfold lookup in cc;
    attained = inl refl;
  }
  sweep-IsLowest ((k, tx) ∷ m) = elim (Bool-cases (leb k a)) [
    | inl old ↦ rw old (sweep-IsLowest m)
    | inr fresh ↦ rw fresh (cons-IsLowest _ k tx _ (sweep-IsLowest m))
  ]

module _ {W : Type 0} (proxy : Proxy W) (converter : PubkeyConverter) where
  re_send_state :
      (txs : List FrontendTransaction) (anh : AddressNonceHandler) (w : W)
      → (re_send proxy converter txs (anh, w)).1 ≡ (anh, resent proxy txs w)
  unfolding re_send resent
  re_send_state [] anh w = refl
  re_send_state (tx ∷ txs) anh w = ground arith

  -- A sweep at which the account's nonce is not the stored one keeps exactly the transactions with
  -- a nonce above the account's, and sends exactly these, in one call, or nothing if there are
  -- none. The lowest nonce becomes the least of the nonces kept and of the stored nonce; the stored
  -- nonce and the gas price stay.
  pub re_send_keeps_above :
      (anh : AddressNonceHandler) (w w' : W) (account : Account)
      → proxy.get_account anh.address w ≡ (ok account, w')
      → account.nonce ≢ anh.computed_nonce
      → let (anh', w'') = (re_send_transactions_if_required proxy converter (anh, w)).1 in
        ((n : ℕ)
          → lookup anh'.transactions n
            ≡ (if leb n account.nonce then none else lookup anh.transactions n))
        × (w'' ≡ resent proxy (values anh'.transactions) w')
        × IsLowest anh.computed_nonce anh'.lowest_nonce anh'.transactions
        × (anh'.computed_nonce ≡ anh.computed_nonce)
        × (anh'.gas_price ≡ anh.gas_price)
  unfolding re_send_transactions_if_required collect_resendable
  re_send_keeps_above anh w w' account fetched ne =
      let not_stored : (account.nonce == anh.computed_nonce) ≡ false = ground arith in
      let a = account.nonce in
      let c = anh.computed_nonce in
      let m = anh.transactions in
      rw fetched (
        rw not_stored (
          rw re_send_state (
            lookup-sweep a c m,
            ap (λ txs. resent proxy txs w') (sweep-values a c m),
            sweep-IsLowest a c m,
            refl,
            refl,
          )))
