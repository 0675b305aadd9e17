-- ===== src/Workflows/MoveBalance/Values.antt =====
-- What a transaction that empties an account moves.
use mx_sdk_erdgo.Prelude.{
  ℕ, zero, suc, ◌+◌, ◌*◌, ◌^◌, ◌%◌, ◌<◌, ◌≡◌, refl, ap, ◌∙◌, String, true, false, Bool-cases, some,
  ◌⊎◌, inl, inr, [], arith,
}
use mx_sdk_erdgo.Prelude.Exec.{ok, ◌>>=◌, lift, plain}
use mx_sdk_erdgo.Prelude.Results.{or_fail}
use mx_sdk_erdgo.Prelude.Success.{ok-bind}
use mx_sdk_erdgo.Chain.{Address, FrontendTransaction, NetworkConfig, u64}
use mx_sdk_erdgo.BigInt.{ℤ, pos, negsuc, is_less, set_string}
use mx_sdk_erdgo.Text.Ascii.{codes, ascii_text, codes-ascii_text}
use mx_sdk_erdgo.Text.Decimal.{format_int, set_string-format_int, format_int-AreBytes}
use mx_sdk_erdgo.Workflows.MoveBalance.{
  Collaborators, MoveBalanceHandler, to_int64, difference, negate, add, multiply, compute_tx_fee,
  emptying, sign_and_add, unless_under, generate_transaction,
}

add-negate : (b f : ℕ) → add (pos b) (negate (pos f)) ≡ difference b f
add-negate b zero = ground arith
add-negate b (suc f) =
    let negative : difference 0 (suc f) ≡ negsuc f = ground arith in
    rw negative (ap (difference b) (omega arith))

small_int64 : (n : ℕ) → n < 2 ^ 63 → to_int64 n ≡ pos n
small_int64 n lt = ground arith

-- The fee, for a price and a limit that are not huge, as the data are empty.
fee_of :
    (price limit per_byte : ℕ)
    → price < 2 ^ 63
    → limit < 2 ^ 63
    → multiply (to_int64 price) (to_int64 ((limit + 0 * per_byte) % u64)) ≡ pos (price * limit)
fee_of price limit per_byte small small' =
    let whole : (limit + 0 * per_byte) % u64 ≡ limit = omega arith in
    rw whole (rw (small_int64 price small) (rw (small_int64 limit small') refl))

-- What is sent of a balance: to the receiver, without data, and so that the value and the fee add up to
-- the balance. The value is negative where the fee is above the balance.
pub record Empties (mbh : MoveBalanceHandler) (configs : NetworkConfig)
    (tx sent : FrontendTransaction) (balance : ℕ) : Type 0 where
  pub value :
      set_string (codes sent.value)
      ≡ some (difference balance (tx.gas_price * configs.min_gas_limit))
  pub receiver : sent.receiver ≡ mbh.receiver_address
  pub payload : sent.payload ≡ []
  pub nonce : sent.nonce ≡ tx.nonce
  pub gas_price : sent.gas_price ≡ tx.gas_price

read_back : (z : ℤ) → set_string (codes (ascii_text (format_int z))) ≡ some z
read_back z =
    ap set_string (codes-ascii_text (format_int z) (format_int-AreBytes z))
    ∙ set_string-format_int z

emptying-Empties :
    (mbh : MoveBalanceHandler) (configs : NetworkConfig) (tx : FrontendTransaction) (balance : ℕ)
    → tx.gas_price < 2 ^ 63
    → configs.min_gas_limit < 2 ^ 63
    → Empties mbh configs tx (emptying mbh configs tx (pos balance)) balance
unfolding emptying compute_tx_fee
emptying-Empties mbh configs tx balance small small' =
    let fee = fee_of tx.gas_price configs.min_gas_limit configs.gas_per_data_byte small small' in
    let moved = add-negate balance (tx.gas_price * configs.min_gas_limit) in
    record {
      value = read_back _ ∙ ap (λ z. some z) (ap (λ z. add (pos balance) (negate z)) fee ∙ moved);
      receiver = refl;
      payload = refl;
      nonce = refl;
      gas_price = refl;
    }

module _ {W : Type 0} (others : Collaborators W) where
  -- Once the address is decoded, and the account is known with its balance: an account under the threshold
  -- is left alone. Of another one a transaction is signed with its key, and added, that goes to the
  -- receiver without data, and whose value and fee add up to the balance, if the gas price and the gas
  -- limit are below 2^63. So it is negative if the fee is above the balance.
  pub generate_transaction-Empties :
      (mbh : MoveBalanceHandler) (address : String) (handler : Address) (configs : NetworkConfig)
      (tx : FrontendTransaction) (balance_text : String) (balance : ℕ) (w w' : W)
      → others.decode_address address ≡ ok handler
      → mbh.cached_net_configs ≡ some configs
      → others.get_default_transaction_arguments handler configs w ≡ (ok (tx, balance_text), w')
      → set_string (codes balance_text) ≡ some (pos balance)
      → tx.gas_price < 2 ^ 63
      → configs.min_gas_limit < 2 ^ 63
      → ((is_less (pos balance) mbh.minimum_balance ≡ true)
          × (generate_transaction others mbh address w ≡ (ok tt, w')))
        ⊎ ((is_less (pos balance) mbh.minimum_balance ≡ false)
            × ((sent : FrontendTransaction) × Empties mbh configs tx sent balance
                × (generate_transaction others mbh address w
                    ≡ (lift (others.new_crypto_holder (others.private_key_of address)) >>= λ holder.
                          sign_and_add others holder sent)
                        w')))
  unfolding generate_transaction
  generate_transaction-Empties mbh address handler configs tx balance_text balance w w' e f g h
        small small' =
      let sent = emptying mbh configs tx (pos balance) in
      let run : generate_transaction others mbh address w
          ≡ unless_under others (is_less (pos balance) mbh.minimum_balance) address sent w' =
        ok-bind (lift (others.decode_address address)) _ w handler w (ap (λ r. (r, w)) e)
        ∙ ok-bind (lift (or_fail (plain "nil cached configs") mbh.cached_net_configs)) _ w configs w
            (ap (λ o. (or_fail (plain "nil cached configs") o, w)) f)
        ∙ ok-bind (others.get_default_transaction_arguments handler configs) _ w (tx, balance_text)
            w' g
        ∙ ok-bind
            (lift
              (or_fail (plain "invalid available balance value") (set_string (codes balance_text))))
            _ w' (pos balance) w'
            (ap (λ o. (or_fail (plain "invalid available balance value") o, w')) h) in
      elim (Bool-cases (is_less (pos balance) mbh.minimum_balance)) [
        | inl under ↦ inl (under, run ∙ ap (λ b. unless_under others b address sent w') under)
        | inr above ↦ inr (
          above,
          (
            sent,
            emptying-Empties mbh configs tx balance small small',
            run ∙ ap (λ b. unless_under others b address sent w') above,
          ),
        )
      ]
