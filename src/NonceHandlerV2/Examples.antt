-- ===== src/NonceHandlerV2/Examples.antt =====
-- The theorems on the nonce handler with gas prices at concrete inputs, and tests.
use mx_sdk_erdgo.Prelude.{
  ℕ, ◌≡◌, ◌⊎◌, inl, refl, true, none, some, [], ◌∷◌, arith, leb, nat_eq, if◌then◌else◌,
}
use mx_sdk_erdgo.Prelude.Exec.{ok, tx_with_same_nonce_and_gas_price_already_sent}
use mx_sdk_erdgo.Dict.{lookup, values}
use mx_sdk_erdgo.ExampleChain.{world, account, config, proxy, converter, alice, tx_of}
use mx_sdk_erdgo.NonceHandlerV1.Resend.{resent}
use mx_sdk_erdgo.NonceHandlerV2.{
  AddressNonceHandler, refusal, needs_gas_price, apply_nonce_and_gas_price,
  get_nonce_updating_current, next_nonce, fetch_gas_price_if_required,
  re_send_transactions_if_required,
}
use mx_sdk_erdgo.NonceHandlerV2.Applying.{IsRepeated, Passes}
use mx_sdk_erdgo.NonceHandlerV2.Outcome.{IsAnswered, apply_outcome}
use mx_sdk_erdgo.NonceHandlerV2.Resend.{IsLowest, re_send_keeps_above}

-- Alice's handler has handed out nonce 5, and stores the transactions 4 and 5.
abbrev at_five : AddressNonceHandler
at_five = record {
  address = alice;
  computed_nonce_was_set = true;
  computed_nonce = 5;
  lowest_nonce = 4;
  gas_price = 1000;
  nonce_until_gas_increased = 0;
  transactions = (5, tx_of 5 "1") ∷ (4, tx_of 4 "2") ∷ [];
}

apply_outcome_example :
    let after = apply_nonce_and_gas_price proxy converter (tx_of 9 "1") (at_five, world 4) in
    (IsRepeated at_five (tx_of 9 "1")
      × (after ≡ (
        ok (tx_of 9 "1", some tx_with_same_nonce_and_gas_price_already_sent),
        (at_five, world 4),
      )))
    ⊎ (Passes at_five (tx_of 9 "1")
        × IsAnswered proxy converter at_five
            (tx_of 9 "1")
            (world 4)
            (inl (account 4))
            (inl config)
            (world 4)
            (world 4)
            after)
apply_outcome_example =
    apply_outcome proxy converter at_five (tx_of 9 "1") (world 4) (inl (account 4)) (inl config)
      (world 4) (world 4) refl refl

-- Nonce 6 is handed out, and the cached gas price is used.
six : apply_nonce_and_gas_price proxy converter (tx_of 9 "1") (at_five, world 4) ≡ (
  ok (record (tx_of 9 "1") { nonce = 6 }, none),
  (record at_five { computed_nonce = 6 }, world 4),
)
unfolding apply_nonce_and_gas_price refusal lookup needs_gas_price get_nonce_updating_current
    next_nonce fetch_gas_price_if_required
six = refl

re_send_keeps_above_example :
    let (anh', w'') = (re_send_transactions_if_required proxy converter (at_five, world 4)).1 in
    ((n : ℕ)
      → lookup anh'.transactions n ≡ (if leb n 4 then none else lookup at_five.transactions n))
    × (w'' ≡ resent proxy (values anh'.transactions) (world 4))
    × IsLowest 5 anh'.lowest_nonce anh'.transactions
    × (anh'.computed_nonce ≡ 5)
    × (anh'.gas_price ≡ 1000)
re_send_keeps_above_example =
    re_send_keeps_above proxy converter at_five (world 4) (world 4) (account 4) refl (omega arith)
