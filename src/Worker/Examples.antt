-- ===== src/Worker/Examples.antt =====
-- The theorems on the transaction worker at concrete runs, and tests.
use mx_sdk_erdgo.Prelude.{◌+◌, ◌≡◌, refl, true, false, none, some, [], ◌∷◌}
use mx_sdk_erdgo.Prelude.Exec.{external}
use mx_sdk_erdgo.Dict.{lookup, insert}
use mx_sdk_erdgo.ExampleChain.{tx_of}
use mx_sdk_erdgo.BigInt.{pos}
use mx_sdk_erdgo.Heap.{heap_push, heap_pop}
use mx_sdk_erdgo.Heap.Order.{Gives}
use mx_sdk_erdgo.Worker.{
  TransactionResponse, TransactionWorker, stopped, at_select, new_transaction_worker,
  add_transaction, next_transaction, close_all_channels, Reachable, adds, closes, made, further,
}
use mx_sdk_erdgo.Worker.Sound.{responses_at, pending, nil_channels, Next}
use mx_sdk_erdgo.Worker.Answers.{Reachable-pending, stopped-responses_at, Reachable-returns}

abbrev response : TransactionResponse
response = record { tx_hash = "hash"; error = none }

-- The transactions 7 and 3 are scheduled on the channels 0 and 1.
abbrev two : TransactionWorker
two = record {
  tq = record { tx = tx_of 3 "1"; index = pos 0 } ∷ record { tx = tx_of 7 "1"; index = pos 1 } ∷ [];
  closed = false;
  responses_channels = (7, 0) ∷ (3, 1) ∷ [];
  channels = 2;
  responses = [];
  position = at_select;
}

abbrev seven : TransactionWorker
seven = record {
  tq = record { tx = tx_of 7 "1"; index = pos 0 } ∷ [];
  closed = false;
  responses_channels = (7, 0) ∷ [];
  channels = 1;
  responses = [];
  position = at_select;
}

two-Reachable : Reachable two
unfolding new_transaction_worker add_transaction heap_push lookup insert
two-Reachable =
    further {tw = seven} (further made (adds (tx_of 7 "1") 0 refl)) (adds (tx_of 3 "1") 1 refl)

-- The worker is closed before it has sent any of them.
abbrev ended : TransactionWorker
ended = record two {
  closed = true;
  responses =
      (0, record { tx_hash = ""; error = some (external "context canceled") })
      ∷ (1, record { tx_hash = ""; error = some (external "context canceled") })
      ∷ [];
  position = stopped;
}

ended-Reachable : Reachable ended
unfolding close_all_channels
ended-Reachable = further two-Reachable (closes (external "context canceled") refl refl)

Reachable-pending_example :
    (responses_at 1 two.responses + pending 1 two ≡ 1) × (nil_channels two.position ≡ 0)
Reachable-pending_example = Reachable-pending two 1 two-Reachable

stopped-responses_at_example : responses_at 1 ended.responses ≡ 1
stopped-responses_at_example = stopped-responses_at ended 1 ended-Reachable refl

Reachable-returns_example :
    Gives (λ (c, tw'). Reachable tw') (add_transaction (tx_of 5 "1") two)
    × Gives (Next two) (next_transaction two)
Reachable-returns_example = Reachable-returns two (tx_of 5 "1") two-Reachable

-- Nonce 3 goes first.
next_of_two : next_transaction two ≡ some (some (tx_of 3 "1"), record two { tq = seven.tq })
unfolding next_transaction heap_pop
next_of_two = refl

-- A nonce that is scheduled is refused at once.
refused_nonce :
    add_transaction (tx_of 7 "2") seven
    ≡ some (
      1,
      record seven {
        channels = 2;
        responses =
            (
              1,
              record {
                tx_hash = "";
                error = some (external "transaction has already been scheduled to send");
              },
            )
            ∷ [];
      },
    )
unfolding add_transaction lookup
refused_nonce = refl
