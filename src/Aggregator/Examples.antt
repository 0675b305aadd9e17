-- ===== src/Aggregator/Examples.antt =====
-- Prices that are whole numbers, two pairs, and a notifee that is the world.
use mx_sdk_erdgo.Prelude.{
  ℕ, ◌+◌, ◌-◌, ◌*◌, ◌/◌, ◌^◌, ◌≤◌, ◌<◌, ◌≡◌, refl, ◌⊎◌, inl, inr, List, [], ◌∷◌, arith, length, ltb,
  leb, if◌then◌else◌, ◌==◌, bytes_eq,
}
use mathlib.Core.List.{Permᴰ}
use mx_sdk_erdgo.Prelude.Exec.{ok, err, plain, external}
use mx_sdk_erdgo.Chain.{Bytes}
use mx_sdk_erdgo.Sorting.{IsLinear}
use mx_sdk_erdgo.Aggregator.{
  Float64, PriceFetcher, PriceAggregator, new_price_aggregator, prices_of, fetch_price,
}
use mx_sdk_erdgo.Aggregator.AnyOrder.{fetch_price_any_order}
use mx_sdk_erdgo.Text.{join}
use mx_sdk_erdgo.Text.Ascii.{codes}
use mx_sdk_erdgo.Builders.Fields.{arguments}
use mx_sdk_erdgo.Aggregator.Pairs.{Pair}
use mx_sdk_erdgo.Aggregator.Notifee.{prepare_tx_data}
use mx_sdk_erdgo.Aggregator.Notifee.Batches.{IsBatch, calls_of, prepare_tx_data-IsBatch}
use mx_sdk_erdgo.Aggregator.Notifier.{
  PriceInfo, ArgsPriceChanged, PriceNotifier, Collaborators, should_notify, prices_from, execute,
}
use mx_sdk_erdgo.Aggregator.Notifier.Rounds.{execute-round, after}

abbrev whole : Float64 ℕ
whole = record {
  is_less = ltb;
  at_least = λ a b. leb b a;
  add = λ a b. a + b;
  sub = λ a b. (a - b) + (b - a);
  mul = λ a b. a * b;
  div = λ a b. a / b;
  abs = λ a. a;
  round = λ a. a;
  of_nat = λ n. n;
  to_uint64 = λ a. a;
  power_of_ten = λ n. 10 ^ n;
  epsilon = 0;
}

ordered : IsLinear whole.is_less
ordered = record {
  asym = λ a b e. ground arith;
  trans = λ a b c e f. ground arith;
  connex = λ a b e f. ground arith;
}

abbrev fetcher : ℕ → PriceFetcher ℕ
fetcher price = record { name = "one"; fetch_price = λ base quote. inl price }

abbrev silent : PriceFetcher ℕ
silent = record { name = "silent"; fetch_price = λ base quote. inr (external "no price") }

abbrev fetchers : List (PriceFetcher ℕ)
fetchers = fetcher 30 ∷ (silent ∷ (fetcher 10 ∷ []))

abbrev aggregator : PriceAggregator ℕ
aggregator = record { price_fetchers = fetchers; min_results_num = 2 }

made : new_price_aggregator fetchers 2 ≡ ok aggregator
unfolding new_price_aggregator
made = refl

abbrev ended : List (PriceFetcher ℕ)
ended = silent ∷ (fetcher 30 ∷ (fetcher 10 ∷ []))

fetch_price_any_order_example :
    (fetch_price whole aggregator ended [] [] ≡ fetch_price whole aggregator fetchers [] [])
    × (((2 ≤ length (prices_of [] [] fetchers))
          × ((price : ℕ) × (fetch_price whole aggregator ended [] [] ≡ ok price)))
        ⊎ ((length (prices_of [] [] fetchers) < 2)
            × (fetch_price whole aggregator ended [] []
                ≡ err (plain "not enough responses to compute a valid price"))))
fetch_price_any_order_example =
    fetch_price_any_order whole ordered fetchers ended 2 aggregator [] [] made
      (Permᴰ.swap refl refl)

median : fetch_price whole aggregator ended [] [] ≡ ok 20
unfolding fetch_price
median = refl

abbrev pair_of : Bytes → Pair ℕ
pair_of base = record {
  base = base;
  quote = 117 ∷ [];
  percent_difference_to_notify = 10;
  decimals = 2;
  trim_precision = 1;
  denomination_factor = 100;
  exchanges = [];
}

abbrev notifier : PriceNotifier ℕ
notifier = record {
  pairs = pair_of (97 ∷ []) ∷ (pair_of (98 ∷ []) ∷ []);
  last_notified_prices = 100 ∷ (100 ∷ []);
  auto_send_interval = 60000000000;
  last_time_auto_sent = 1000000000;
}

-- The world is what the notifee heard last.
abbrev others : Collaborators ℕ (List ArgsPriceChanged)
others = record {
  fetch_price = λ base quote w. (ok (if base == (97 ∷ []) then 120 else 105), w);
  price_changed = λ args w. (ok tt, args);
  now = λ w. 2000000000;
}

abbrev infos : List (PriceInfo ℕ)
infos = record { price = 120; timestamp = 2 } ∷ (record { price = 105; timestamp = 2 } ∷ [])

fetched : prices_from whole others notifier.pairs [] ≡ (ok infos, [])
unfolding prices_from
fetched = refl

abbrev heard : ArgsPriceChanged
heard = record {
  base = 97 ∷ [];
  quote = 117 ∷ [];
  denominated_price = 12000;
  decimals = 2;
  timestamp = 2;
}

execute-round_example :
    (execute whole others (notifier, [])
      ≡ (ok tt, (record notifier { last_notified_prices = 120 ∷ (100 ∷ []) }, heard ∷ [])))
    × (length (after whole others notifier infos []).last_notified_prices ≡ 2)
unfolding should_notify
execute-round_example = execute-round whole others notifier infos [] [] refl fetched

prepare_tx_data-IsBatch_example :
    IsBatch (arguments (calls_of (heard ∷ []))) (prepare_tx_data (heard ∷ []))
prepare_tx_data-IsBatch_example =
    prepare_tx_data-IsBatch (heard ∷ []) (omega arith, omega arith, tt)

-- A price that does not fit in an int64 is written as another one.
batch_of_largest :
    prepare_tx_data (record heard { denominated_price = 2 ^ 64 - 1 } ∷ [])
    ≡ ok (codes "submitBatch@61@75@02@01@02")
unfolding prepare_tx_data join
batch_of_largest = refl

batch : prepare_tx_data (heard ∷ []) ≡ ok (codes "submitBatch@61@75@02@2ee0@02")
unfolding prepare_tx_data join
batch = refl
