-- ===== src/NonceHandlerV2/Outcome.antt =====
-- `ApplyNonceAndGasPrice` as a whole: which branch is taken when, and what it gives.
use mx_sdk_erdgo.Prelude.{
  ℕ, ◌+◌, ◌%◌, true, ◌≤◌, ◌<◌, ◌≡◌, ◌≢◌, ◌⊎◌, inl, inr, Option, none, some, arith, max, nat_eq,
  if◌then◌else◌,
}
use native.Mathlib.Decide.{dec_lt, ℕ_discrete}
use mx_sdk_erdgo.Prelude.Exec.{
  Result, ok, err, Error, attempt, gap_nonce, tx_with_same_nonce_and_gas_price_already_sent,
}
use mx_sdk_erdgo.Chain.{u64, FrontendTransaction, Account, NetworkConfig, PubkeyConverter, Proxy}
use mx_sdk_erdgo.NonceHandlerV2.{AddressNonceHandler, apply_nonce_and_gas_price, needs_gas_price}
use mx_sdk_erdgo.NonceHandlerV2.Applying.{
  IsRepeated, Passes, refusal-none, guard-cases, min_gas_price_of, apply_refuses, apply_unfetched,
  apply_gap, apply_gives,
}

module _ {W : Type 0} (proxy : Proxy W) (converter : PubkeyConverter) (anh : AddressNonceHandler)
    (tx : FrontendTransaction) (w : W) where
  -- The price is fetched where the handler's is 0, or where the nonce is the one behind the last
  -- dropped; otherwise it is the handler's, and nothing is asked for.
  abbrev pub IsPriced : ℕ → NetworkConfig ⊎ Error → W → W → ℕ → W → Type 0
  IsPriced n answer w' w'' price end =
      (((n ≡ (anh.nonce_until_gas_increased + 1) % u64) ⊎ (anh.gas_price ≡ 0))
        × (price ≡ min_gas_price_of answer)
        × (end ≡ w''))
      ⊎ ((n ≢ (anh.nonce_until_gas_increased + 1) % u64)
          × (anh.gas_price ≢ 0)
          × (price ≡ anh.gas_price)
          × (end ≡ w'))

  IsPriced-needs :
      (n : ℕ) (answer : NetworkConfig ⊎ Error) (w' w'' : W)
      → IsPriced n answer w' w''
          (if needs_gas_price n anh then min_gas_price_of answer else anh.gas_price)
          (if needs_gas_price n anh then w'' else w')
  unfolding needs_gas_price
  IsPriced-needs n answer w' w'' = elim (ℕ_discrete n ((anh.nonce_until_gas_increased + 1) % u64)) [
    | yes behind ↦ inl (inl behind, ground arith, ground arith)
    | no other ↦ elim (ℕ_discrete anh.gas_price 0) [
      | yes unset ↦ inl (inr unset, ground arith, ground arith)
      | no set ↦ inr (other, set, ground arith, ground arith)
    ]
  ]

  -- The transaction gets the account's nonce where the nonce was not set, and otherwise the greater of
  -- that and of the one behind the stored nonce; and the greater of its own gas price and the handler's.
  abbrev pub IsApplied :
      Account
      → NetworkConfig ⊎ Error
      → W
      → W
      → Result (FrontendTransaction × Option Error) × (AddressNonceHandler × W)
      → Type 0
  IsApplied account answer w' w'' after =
      let upcoming = (anh.computed_nonce + 1) % u64 in
      let n = if anh.computed_nonce_was_set then max upcoming account.nonce else account.nonce in
      (price : ℕ) × (end : W) × IsPriced n answer w' w'' price end
      × (after ≡ (
        ok (record tx { nonce = n; gas_price = max price tx.gas_price }, none),
        (
          record anh {
            computed_nonce = if anh.computed_nonce_was_set then upcoming else account.nonce;
            computed_nonce_was_set = true;
            gas_price = price;
          },
          end,
        ),
      ))

  abbrev pub account_answer : Account ⊎ Error → Result Account
  account_answer (inl account) = ok account
  account_answer (inr e) = err e

  -- Behind the guard, by what the proxy says of the account.
  abbrev pub IsAnswered :
      Account ⊎ Error
      → NetworkConfig ⊎ Error
      → W
      → W
      → Result (FrontendTransaction × Option Error) × (AddressNonceHandler × W)
      → Type 0
  IsAnswered (inr e) answer w' w'' after = after ≡ (ok (record tx { nonce = 0 }, some e), (anh, w'))
  IsAnswered (inl account) answer w' w'' after =
      ((account.nonce < anh.lowest_nonce)
        × (after ≡ (ok (record tx { nonce = account.nonce }, some gap_nonce), (anh, w'))))
      ⊎ ((anh.lowest_nonce ≤ account.nonce) × IsApplied account answer w' w'' after)

  answered :
      (found : Account ⊎ Error) (answer : NetworkConfig ⊎ Error) (w' w'' : W)
      → Passes anh tx
      → proxy.get_account anh.address w ≡ (account_answer found, w')
      → attempt proxy.get_network_config w' ≡ (ok answer, w'')
      → IsAnswered found answer w' w'' (apply_nonce_and_gas_price proxy converter tx (anh, w))
  answered (inr e) answer w' w'' passes fetched configured =
      apply_unfetched proxy converter anh tx w e w' (refusal-none anh tx passes) fetched
  answered (inl account) answer w' w'' passes fetched configured =
      elim (dec_lt account.nonce anh.lowest_nonce) [
        | yes lt ↦ inl (
          lt,
          apply_gap proxy converter anh tx w account w' (refusal-none anh tx passes) fetched lt,
        )
        | no ge ↦
            let le : anh.lowest_nonce ≤ account.nonce = omega arith in
            inr (
              le,
              (
                _,
                _,
                IsPriced-needs _ answer w' w'',
                apply_gives proxy converter anh tx w account answer w' w''
                    (refusal-none anh tx passes) fetched le configured,
              ),
            )
      ]

  -- Whatever the proxy answers, if it does not panic. A transaction with the nonce of a stored one is
  -- refused, unless it offers more gas, or as much where the handler's gas price has risen above that;
  -- it is left as it is then, and so are the handler and the world. Otherwise, where the account cannot
  -- be fetched, the transaction gets the nonce 0 and the error, and where the account is behind the
  -- lowest nonce, the account's nonce and an error. In all other cases it gets the account's nonce where
  -- the nonce was not set, and otherwise the greater of that and of the one behind the stored nonce; its
  -- gas price becomes the greater of its own and of the handler's, and nothing else of it changes. The
  -- handler's gas price is fetched first exactly if it is 0 or if the nonce is the one behind the last
  -- dropped, and is 0 where that fails. The stored transactions stay, and nothing is sent.
  pub apply_outcome :
      (found : Account ⊎ Error) (answer : NetworkConfig ⊎ Error) (w' w'' : W)
      → proxy.get_account anh.address w ≡ (account_answer found, w')
      → attempt proxy.get_network_config w' ≡ (ok answer, w'')
      → let after = apply_nonce_and_gas_price proxy converter tx (anh, w) in
        (IsRepeated anh tx
          × (after ≡ (ok (tx, some tx_with_same_nonce_and_gas_price_already_sent), (anh, w))))
        ⊎ (Passes anh tx × IsAnswered found answer w' w'' after)
  apply_outcome found answer w' w'' fetched configured = elim (guard-cases anh tx) [
    | inl repeated ↦ inl (repeated, apply_refuses proxy converter anh tx w repeated)
    | inr passes ↦ inr (passes, answered found answer w' w'' passes fetched configured)
  ]
