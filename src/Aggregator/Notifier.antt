-- ===== src/Aggregator/Notifier.antt =====
-- aggregator/priceNotifier.go: which pairs the notifee is told of.
pub mod Rounds
use mx_sdk_erdgo.Prelude.{
  ℕ, suc, ◌+◌, ◌-◌, ◌*◌, ◌/◌, ◌%◌, ◌^◌, min, Bool, true, false, not, ◌&&◌, ◌||◌, List, [], ◌∷◌,
  length, write, ltb, leb, map, if◌then◌else◌,
}
use mx_sdk_erdgo.Prelude.Exec.{
  Exec, Result, ok, err, panic, ◌>>=◌, ◌>>◌, pure, lift, call, relabel, wrap_error, wrapped, plain,
}
use mx_sdk_erdgo.Chain.{Bytes}
use mx_sdk_erdgo.Aggregator.{Float64}
use mx_sdk_erdgo.Aggregator.Pairs.{ArgsPair, Pair, new_pairs, trim}

pub record PriceInfo (F : Type 0) : Type 0 where
  pub price : F
  pub timestamp : ℕ

pub record NotifyArgs (F : Type 0) : Type 0 where
  pub pair : Pair F
  pub new_price : PriceInfo F
  pub last_notified_price : F
  pub index : ℕ

pub record ArgsPriceChanged : Type 0 where
  pub base : Bytes
  pub quote : Bytes
  pub denominated_price : ℕ
  pub decimals : ℕ
  pub timestamp : ℕ

-- Times are in nanoseconds.
pub record PriceNotifier (F : Type 0) : Type 0 where
  pub pairs : List (Pair F)
  pub last_notified_prices : List F
  pub auto_send_interval : ℕ
  pub last_time_auto_sent : ℕ

-- The price aggregator, the notifee and the clock.
pub record Collaborators (F W : Type 0) : Type 0 where
  pub fetch_price : Bytes → Bytes → Exec W F
  pub price_changed : List ArgsPriceChanged → Exec W (Unit {0})
  pub now : W → ℕ

-- `result := make([]float64, n)`
abbrev pub zeros : {F A : Type 0} → F → List A → List F
zeros zero_price [] = []
zeros zero_price (a ∷ rest) = zero_price ∷ zeros zero_price rest

module _ {F : Type 0} (float : Float64 F) where
  -- The aggregator and the notifee are not nil; `now` is the time of the call.
  unfoldable pub new_price_notifier : List ArgsPair → ℕ → ℕ → Result (PriceNotifier F)
  unfolding new_pairs
  new_price_notifier pairs auto_send_interval now =
      if ltb (length pairs) 1
      then err (plain "empty pair arguments slice")
      else if ltb auto_send_interval 1000000000
      then err (wrapped "minimum" (plain "invalid auto send interval"))
      else with_pairs (new_pairs float pairs)
    where
      with_pairs : Result (List (Pair F)) → Result (PriceNotifier F)
      with_pairs (err e) = err e
      with_pairs panic = panic
      with_pairs (ok made) = ok record {
        pairs = made;
        last_notified_prices = zeros (float.of_nat 0) pairs;
        auto_send_interval = auto_send_interval;
        last_time_auto_sent = now;
      }

  unfoldable pub should_notify : NotifyArgs F → Bool
  should_notify notify =
      let percent = float.of_nat notify.pair.percent_difference_to_notify in
      if float.is_less notify.last_notified_price float.epsilon
        || float.is_less (float.div percent (float.of_nat 100)) float.epsilon
      then true
      else (let change = float.abs (float.sub notify.last_notified_price notify.new_price.price) in
          float.at_least
            (float.div (float.mul change (float.of_nat 100)) notify.last_notified_price) percent)

  abbrev pub notify_at : ℕ → Pair F → PriceInfo F → F → NotifyArgs F
  notify_at index pair info last = record {
    pair = pair;
    new_price = info;
    last_notified_price = last;
    index = index;
  }

  abbrev pub added :
      NotifyArgs F → Bool → Result (List (NotifyArgs F)) → Result (List (NotifyArgs F))
  added notify wanted (err e) = err e
  added notify wanted panic = panic
  added notify true (ok rest) = ok (notify ∷ rest)
  added notify false (ok rest) = ok rest

  -- The loop of `computeNotifyArgsSlice`, from an index on. A missing price is an index out of range.
  unfoldable pub notify_args_from :
      Bool → ℕ → List (Pair F) → List (PriceInfo F) → List F → Result (List (NotifyArgs F))
  unfolding should_notify
  notify_args_from all index [] infos lasts = ok []
  notify_args_from all index (pair ∷ pairs) [] lasts = panic
  notify_args_from all index (pair ∷ pairs) (info ∷ infos) [] = panic
  notify_args_from all index (pair ∷ pairs) (info ∷ infos) (last ∷ lasts) =
      let notify = notify_at index pair info last in
      added notify (all || should_notify notify)
        (notify_args_from all (suc index) pairs infos lasts)

  abbrev pub price_changed_of : NotifyArgs F → ArgsPriceChanged
  price_changed_of notify = record {
    base = notify.pair.base;
    quote = notify.pair.quote;
    denominated_price = float.to_uint64 (
        float.mul (trim float notify.new_price.price notify.pair.trim_precision)
          (float.of_nat notify.pair.denomination_factor));
    decimals = notify.pair.decimals;
    timestamp = notify.new_price.timestamp;
  }

  -- What the loop of `notify` writes. The indexes are those of the pairs.
  unfoldable pub last_prices_after : List (NotifyArgs F) → List F → List F
  last_prices_after [] lasts = lasts
  last_prices_after (notify ∷ rest) lasts =
      last_prices_after rest
        (write lasts notify.index (trim float notify.new_price.price notify.pair.trim_precision))

  module _ {W : Type 0} (with_others : Collaborators F W) where
    unfoldable pub prices_from : List (Pair F) → Exec W (List (PriceInfo F))
    prices_from [] = pure []
    prices_from (pair ∷ pairs) =
        let following = prices_from pairs in
        (do
          price ←
              wrap_error "while querying the pair" (with_others.fetch_price pair.base pair.quote)
          timestamp ← (λ w. (ok (with_others.now w / 1000000000), w))
          rest ← following
          pure (
              record { price = trim float price pair.trim_precision; timestamp = timestamp }
              ∷ rest))

    abbrev pub is_due : PriceNotifier F → W → Bool
    is_due pn w =
        ltb pn.auto_send_interval (min (with_others.now w - pn.last_time_auto_sent) (2 ^ 63 - 1))

    abbrev pub restarted : Bool → ℕ → PriceNotifier F → PriceNotifier F
    restarted all time pn = record pn {
      last_time_auto_sent = if all then time else pn.last_time_auto_sent;
    }

    -- Under the lock.
    unfoldable pub compute_notify_args_slice :
        List (PriceInfo F) → Exec (PriceNotifier F × W) (List (NotifyArgs F))
    unfolding notify_args_from
    compute_notify_args_slice infos (pn, w) =
        let all = is_due pn w in
        (
          notify_args_from all 0 pn.pairs infos pn.last_notified_prices,
          (restarted all (with_others.now w) pn, w),
        )

    abbrev pub tell : List ArgsPriceChanged → Exec W (Unit {0})
    tell [] = pure tt
    tell (args ∷ rest) = with_others.price_changed (args ∷ rest)

    -- The last prices are written before the notifee is called.
    unfoldable pub notify_all : List (NotifyArgs F) → Exec (PriceNotifier F × W) (Unit {0})
    unfolding last_prices_after
    notify_all slice (pn, w) =
        call (tell (map price_changed_of slice))
          (record pn { last_notified_prices = last_prices_after slice pn.last_notified_prices }, w)

    unfoldable pub get_all_prices : Exec (PriceNotifier F × W) (List (PriceInfo F))
    unfolding prices_from
    get_all_prices (pn, w) = call (prices_from pn.pairs) (pn, w)

    unfoldable pub execute : Exec (PriceNotifier F × W) (Unit {0})
    unfolding get_all_prices compute_notify_args_slice notify_all
    execute = do
      fetched_prices ← get_all_prices
      slice ← compute_notify_args_slice fetched_prices
      notify_all slice
