-- ===== src/NonceHandlerV1/Examples.antt =====
-- The theorems on the nonce handler at concrete inputs, and tests.
use mx_sdk_erdgo.Prelude.{
  ℕ, ◌-◌, ◌≡◌, ◌≢◌, ◌⊎◌, inl, map, refl, true, false, none, some, [], ◌∷◌, arith, leb, ◌==◌, nat_eq,
  bytes_eq, if◌then◌else◌,
}
use mx_sdk_erdgo.Prelude.Exec.{err, tx_already_sent, relabel}
use mx_sdk_erdgo.Dict.{lookup, values}
use mx_sdk_erdgo.ExampleChain.{World, world, account, proxy, converter, alice, bob, tx_of}
use mx_sdk_erdgo.Handlers
use mx_sdk_erdgo.NonceHandlerV1.{
  Memory, AddressNonceHandler, get_nonce_updating_current, re_send_transactions_if_required,
  send_transaction, store_transaction,
}
use mx_sdk_erdgo.NonceHandlerV1.Nonces.{hand_out, hand_out-count_from}
use mx_sdk_erdgo.NonceHandlerV1.Resend.{resent, re_send_keeps_and_sends}
use mx_sdk_erdgo.NonceHandlerV1.Aliasing.{IsIn, send_then_re_send}
use mx_sdk_erdgo.NonceHandlerV1.Transactions.{NonceTransactionsHandler, on_handler, send}
use mx_sdk_erdgo.NonceHandlerV1.Transactions.Addresses.{handler_at, on_handler_refines}
use mx_sdk_erdgo.NonceHandlerV1.Transactions.Sending.{
  IsRepeated, IsNew, send_refuses_duplicate, send_stores_and_sends,
}

-- Alice's handler has handed out nonce 5, and stores the transactions 4 and 5.
abbrev at_five : AddressNonceHandler
at_five = record {
  address = alice;
  computed_nonce_was_set = true;
  computed_nonce = 5;
  transactions = (5, 0) ∷ (4, 1) ∷ [];
}

-- The callers' transactions. Where the chain is cancelled the caller has put 40 in the second one.
abbrev memory : Memory World
memory w p =
    if p == 0
    then tx_of 5 "1"
    else if p == 1
    then tx_of (if w.cancelled then 40 else 4) "2"
    else if p == 2
    then tx_of 6 "2"
    else tx_of 6 "3"

abbrev cancelled : World
cancelled = record (world 3) { cancelled = true }

abbrev checking : NonceTransactionsHandler
checking = record { handlers = (alice, at_five) ∷ []; check_for_duplicates = true }

abbrev unchecking : NonceTransactionsHandler
unchecking = record { handlers = (alice, at_five) ∷ []; check_for_duplicates = false }

hand_out-count_from_example : hand_out (6 ∷ 3 ∷ 7 ∷ []) at_five ≡ 6 ∷ 7 ∷ 8 ∷ []
hand_out-count_from_example = hand_out-count_from 6 (3 ∷ 7 ∷ []) at_five (omega arith) (omega arith)

re_send_keeps_and_sends_example :
    let (anh', w'') =
      (re_send_transactions_if_required proxy converter memory (at_five, world 4)).1 in
    ((n : ℕ)
      → lookup anh'.transactions n ≡ (if leb n 4 then none else lookup at_five.transactions n))
    × (w'' ≡ resent proxy (map (memory (world 4)) (values anh'.transactions)) (world 4))
    × (anh'.computed_nonce ≡ 5)
    × (anh'.computed_nonce_was_set ≡ true)
re_send_keeps_and_sends_example =
    re_send_keeps_and_sends proxy converter memory at_five (world 4) (world 4) (account 4) refl
      (omega arith)

on_handler_refines_example :
    let (r', (nth', w'')) =
      on_handler alice (get_nonce_updating_current proxy converter) (checking, world 3) in
    let (r, (anh', w')) =
      get_nonce_updating_current proxy converter (handler_at checking alice, world 3) in
    (r' ≡ r)
    × (w'' ≡ w')
    × (handler_at nth' bob ≡ (if alice == bob then anh' else handler_at checking bob))
    × (nth'.check_for_duplicates ≡ true)
on_handler_refines_example =
    on_handler_refines alice (get_nonce_updating_current proxy converter) checking (world 3) bob

send_then_re_send_example :
    let anh' = (send_transaction proxy converter memory 1 (at_five, world 4)).1.0 in
    let (anh'', end) =
      (re_send_transactions_if_required proxy converter memory (anh', cancelled)).1 in
    (lookup anh''.transactions 4 ≡ some 1)
    × IsIn (tx_of 40 "2") (map (memory cancelled) (values anh''.transactions))
    × (end ≡ resent proxy (map (memory cancelled) (values anh''.transactions)) cancelled)
unfolding send_transaction store_transaction
send_then_re_send_example =
    send_then_re_send proxy converter memory at_five 1 (world 4) cancelled cancelled (account 3)
      refl (omega arith) (omega arith)

send_refuses_duplicate_example :
    let (r, (nth', w')) = send proxy converter memory (some 2) (checking, world 4) in
    (IsRepeated (memory (world 4)) 2 (handler_at checking alice).transactions
      × (r ≡ err tx_already_sent)
      × (w' ≡ world 4)
      × ((handler_at nth' alice).transactions ≡ (handler_at checking alice).transactions)
      × ((handler_at nth' alice).computed_nonce ≡ (handler_at checking alice).computed_nonce - 1))
    ⊎ (IsNew (memory (world 4)) 2 (handler_at checking alice).transactions
        × (r ≢ err tx_already_sent))
unfolding Handlers.handler_at lookup
send_refuses_duplicate_example =
    send_refuses_duplicate proxy converter memory 2 alice checking (world 4) refl refl (omega arith)

send_stores_and_sends_example :
    let (r, (nth', w')) = send proxy converter memory (some 3) (unchecking, world 4) in
    let (sent, w'') = proxy.send_transaction (tx_of 6 "3") (world 4) in
    (r ≡ relabel "while sending transaction for address" sent)
    × (w' ≡ w'')
    × ((n : ℕ)
        → lookup (handler_at nth' alice).transactions n
          ≡ (if 6 == n then some 3 else lookup (handler_at unchecking alice).transactions n))
    × ((handler_at nth' alice).computed_nonce ≡ (handler_at unchecking alice).computed_nonce)
send_stores_and_sends_example =
    send_stores_and_sends proxy converter memory 3 alice unchecking (world 4) refl (inl refl)
