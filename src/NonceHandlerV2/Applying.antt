-- ===== src/NonceHandlerV2/Applying.antt =====
-- `ApplyNonceAndGasPrice`, branch by branch: what it refuses, and what it writes to the transaction.
use mx_sdk_erdgo.Prelude.{
  ℕ, ◌+◌, ◌%◌, ◌∙◌, true, ◌≤◌, ◌<◌, ◌≡◌, ◌⊎◌, inl, inr, refl, sym, ap, Bool-cases, Option-cases,
  false, none, some, arith, max, ltb, nat_eq, if◌then◌else◌,
}
use native.Mathlib.Decide.{dec_lt}
use mx_sdk_erdgo.Prelude.Exec.{
  ok, err, Error, attempt, gap_nonce, tx_with_same_nonce_and_gas_price_already_sent,
}
use mx_sdk_erdgo.Dict.{lookup}
use mx_sdk_erdgo.Chain.{u64, FrontendTransaction, Account, NetworkConfig, PubkeyConverter, Proxy}
use mx_sdk_erdgo.NonceHandlerV2.{
  AddressNonceHandler, refusal, apply_nonce_and_gas_price, get_nonce_updating_current,
  needs_gas_price, store_gas_price, fetch_gas_price_if_required, next_nonce,
}

-- A transaction with the nonce of a stored one offers less gas than that, or as much, and the handler's
-- gas price has not risen above it.
abbrev pub IsRepeated : AddressNonceHandler → FrontendTransaction → Type 0
IsRepeated anh tx =
    (old : FrontendTransaction) × (lookup anh.transactions tx.nonce ≡ some old)
    × ((tx.gas_price < old.gas_price)
        ⊎ ((tx.gas_price ≡ old.gas_price) × (anh.gas_price ≤ old.gas_price)))

-- The nonce is not stored; or the transaction offers more gas than the stored one, or as much where the
-- handler's gas price has risen above that.
abbrev pub Passes : AddressNonceHandler → FrontendTransaction → Type 0
Passes anh tx =
    (lookup anh.transactions tx.nonce ≡ none)
    ⊎ ((old : FrontendTransaction) × (lookup anh.transactions tx.nonce ≡ some old)
        × ((old.gas_price < tx.gas_price)
            ⊎ ((old.gas_price ≡ tx.gas_price) × (old.gas_price < anh.gas_price))))

pub refusal-none :
    (anh : AddressNonceHandler) (tx : FrontendTransaction) → Passes anh tx → refusal tx anh ≡ none
unfolding refusal
refusal-none anh tx (inl fresh) = ground arith
refusal-none anh tx (inr (old, stored, more)) = ground arith

refused :
    (anh : AddressNonceHandler) (tx : FrontendTransaction)
    → IsRepeated anh tx
    → refusal tx anh ≡ some tx_with_same_nonce_and_gas_price_already_sent
unfolding refusal
refused anh tx (old, stored, less) = ground arith

pub guard-cases :
    (anh : AddressNonceHandler) (tx : FrontendTransaction) → IsRepeated anh tx ⊎ Passes anh tx
guard-cases anh tx = elim (Option-cases (lookup anh.transactions tx.nonce)) [
  | inl fresh ↦ inr (inl fresh)
  | inr (old, stored) ↦ elim (dec_lt old.gas_price tx.gas_price) [
    | yes more ↦ inr (inr (old, stored, inl more))
    | no not_more ↦ elim (dec_lt tx.gas_price old.gas_price) [
      | yes less ↦ inl (old, stored, inl less)
      | no not_less ↦
          let same : tx.gas_price ≡ old.gas_price = omega arith in
          elim (dec_lt old.gas_price anh.gas_price) [
            | yes risen ↦ inr (inr (old, stored, inr (sym same, risen)))
            | no not_risen ↦ inl (old, stored, inr (same, omega arith))
          ]
    ]
  ]
]

gas_price-next_nonce :
    (a : ℕ) (anh : AddressNonceHandler) → (next_nonce a anh).1.gas_price ≡ anh.gas_price
unfolding next_nonce
gas_price-next_nonce a anh = ground arith

-- The gas price to store behind the fetch of the network's configuration.
abbrev pub min_gas_price_of : NetworkConfig ⊎ Error → ℕ
min_gas_price_of (inl config) = config.min_gas_price
min_gas_price_of (inr e) = 0

fetch_gas_price_lem :
    {W : Type 0} (proxy : Proxy W) (converter : PubkeyConverter) (n : ℕ) (anh : AddressNonceHandler)
    (answer : NetworkConfig ⊎ Error) (w' w'' : W)
    → attempt proxy.get_network_config w' ≡ (ok answer, w'')
    → fetch_gas_price_if_required proxy converter n (anh, w') ≡ (
      ok tt,
      (
        record anh {
          gas_price = if needs_gas_price n anh then min_gas_price_of answer else anh.gas_price;
        },
        if needs_gas_price n anh then w'' else w',
      ),
    )
unfolding fetch_gas_price_if_required
fetch_gas_price_lem proxy converter n anh answer w' w'' e =
    let answered = ap (λ x. x.0) e in
    let after = ap (λ x. x.1) e in
    elim (Bool-cases (needs_gas_price n anh)) [
      | inl need ↦ rw need (rw answered (rw after (stored answer)))
      | inr cached ↦ rw cached
    ]
  where
    stored :
        (a : NetworkConfig ⊎ Error)
        → store_gas_price proxy converter a (anh, w'')
          ≡ (ok tt, (record anh { gas_price = min_gas_price_of a }, w''))
    stored (inl config) = refl
    stored (inr error) = refl

module _ {W : Type 0} (proxy : Proxy W) (converter : PubkeyConverter) (anh : AddressNonceHandler)
    (tx : FrontendTransaction) (w : W) where
  pub apply_refuses :
      IsRepeated anh tx
      → apply_nonce_and_gas_price proxy converter tx (anh, w)
        ≡ (ok (tx, some tx_with_same_nonce_and_gas_price_already_sent), (anh, w))
  unfolding apply_nonce_and_gas_price
  apply_refuses repeated = rw (refused anh tx repeated)

  pub apply_unfetched :
      (e : Error) (w' : W)
      → refusal tx anh ≡ none
      → proxy.get_account anh.address w ≡ (err e, w')
      → apply_nonce_and_gas_price proxy converter tx (anh, w)
        ≡ (ok (record tx { nonce = 0 }, some e), (anh, w'))
  unfolding apply_nonce_and_gas_price get_nonce_updating_current
  apply_unfetched e w' fresh fetched = rw fresh (rw fetched refl)

  pub apply_gap :
      (account : Account) (w' : W)
      → refusal tx anh ≡ none
      → proxy.get_account anh.address w ≡ (ok account, w')
      → account.nonce < anh.lowest_nonce
      → apply_nonce_and_gas_price proxy converter tx (anh, w)
        ≡ (ok (record tx { nonce = account.nonce }, some gap_nonce), (anh, w'))
  unfolding apply_nonce_and_gas_price get_nonce_updating_current
  apply_gap account w' fresh fetched lt = rw fresh (rw fetched (ground arith))

  -- The state behind the call, by the nonce that is handed out.
  apply-next_nonce :
      (account : Account) (answer : NetworkConfig ⊎ Error) (w' w'' : W)
      → refusal tx anh ≡ none
      → proxy.get_account anh.address w ≡ (ok account, w')
      → anh.lowest_nonce ≤ account.nonce
      → attempt proxy.get_network_config w' ≡ (ok answer, w'')
      → let (n, next) = next_nonce account.nonce anh in
        let price = if needs_gas_price n next then min_gas_price_of answer else anh.gas_price in
        apply_nonce_and_gas_price proxy converter tx (anh, w) ≡ (
          ok (record tx { nonce = n; gas_price = max price tx.gas_price }, none),
          (record next { gas_price = price }, if needs_gas_price n next then w'' else w'),
        )
  unfolding apply_nonce_and_gas_price get_nonce_updating_current
  apply-next_nonce account answer w' w'' fresh fetched le configured =
      let not_gap : ltb account.nonce anh.lowest_nonce ≡ false = ground arith in
      let (n, next) = next_nonce account.nonce anh in
      rw fresh (
        rw fetched (
          rw not_gap (
            rw (fetch_gas_price_lem proxy converter n next answer w' w'' configured)
              (rw (gas_price-next_nonce account.nonce anh)))))

  next_nonce_lem :
      (a : ℕ) (h : AddressNonceHandler)
      → let upcoming = (h.computed_nonce + 1) % u64 in
        next_nonce a h ≡ (
          (if h.computed_nonce_was_set then max upcoming a else a),
          record h {
            computed_nonce = if h.computed_nonce_was_set then upcoming else a;
            computed_nonce_was_set = true;
          },
        )
  unfolding next_nonce
  next_nonce_lem a h = ground arith

  pub apply_gives :
      (account : Account) (answer : NetworkConfig ⊎ Error) (w' w'' : W)
      → refusal tx anh ≡ none
      → proxy.get_account anh.address w ≡ (ok account, w')
      → anh.lowest_nonce ≤ account.nonce
      → attempt proxy.get_network_config w' ≡ (ok answer, w'')
      → let upcoming = (anh.computed_nonce + 1) % u64 in
        let n = if anh.computed_nonce_was_set then max upcoming account.nonce else account.nonce in
        let price = if needs_gas_price n anh then min_gas_price_of answer else anh.gas_price in
        apply_nonce_and_gas_price proxy converter tx (anh, w) ≡ (
          ok (record tx { nonce = n; gas_price = max price tx.gas_price }, none),
          (
            record anh {
              computed_nonce = if anh.computed_nonce_was_set then upcoming else account.nonce;
              computed_nonce_was_set = true;
              gas_price = price;
            },
            if needs_gas_price n anh then w'' else w',
          ),
        )
  unfolding needs_gas_price
  apply_gives account answer w' w'' fresh fetched le configured =
      apply-next_nonce account answer w' w'' fresh fetched le configured
      ∙ rw (next_nonce_lem account.nonce anh) refl
