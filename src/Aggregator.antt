-- ===== src/Aggregator.antt =====
-- aggregator/priceAggregator.go and aggregator/computers.go: one price out of those of several fetchers.
pub mod AnyOrder
pub mod Pairs
pub mod Notifier
pub mod Notifee
pub mod Examples
use mx_sdk_erdgo.Prelude.{
  ℕ, ◌-◌, ◌/◌, ◌%◌, String, Bool, true, false, Option, none, some, ◌⊎◌, inl, inr, List, [], ◌∷◌, at,
  length, ltb, leb, ◌&&◌, map, ◌==◌, nat_eq, if◌then◌else◌,
}
use mx_sdk_erdgo.Prelude.Exec.{Result, ok, err, panic, Error, wrapped, plain}
use mx_sdk_erdgo.Prelude.Results.{◌>>=◌, or_panic}
use mx_sdk_erdgo.Chain.{Bytes}
use mx_sdk_erdgo.Sorting.{sort_slice}

-- What the code uses of `float64`. The floats are a parameter, as their rounding has no model here.
pub record Float64 (F : Type 0) : Type 0 where
  pub is_less : F → F → Bool
  pub at_least : F → F → Bool
  pub add : F → F → F
  pub sub : F → F → F
  pub mul : F → F → F
  pub div : F → F → F
  pub abs : F → F
  pub round : F → F
  pub of_nat : ℕ → F
  pub to_uint64 : F → ℕ
  -- `math.Pow(10, …)`
  pub power_of_ten : ℕ → F
  pub epsilon : F

-- A fetcher, by what it answers to this call: a price, or an error.
pub record PriceFetcher (F : Type 0) : Type 0 where
  pub name : String
  pub fetch_price : Bytes → Bytes → F ⊎ Error

pub record PriceAggregator (F : Type 0) : Type 0 where
  pub price_fetchers : List (PriceFetcher F)
  pub min_results_num : ℕ

-- An int below the least number is 0 here.
unfoldable pub new_price_aggregator :
    {F : Type 0} → List (PriceFetcher F) → ℕ → Result (PriceAggregator F)
new_price_aggregator fetchers number =
    if ltb number 1
    then err (wrapped "provided" (plain "invalid minimum number of results"))
    else if ltb (length fetchers) number
    then err (wrapped "len(args.PriceFetchers)" (plain "invalid number of price fetchers"))
    else ok record { price_fetchers = fetchers; min_results_num = number }

-- `strings.ToUpper`, of ASCII.
abbrev pub to_upper : Bytes → Bytes
to_upper text = map (λ c. if leb 97 c && leb c 122 then c - 32 else c) text

abbrev pub with_price : {F : Type 0} → F ⊎ Error → List F → List F
with_price (inl price) prices = price ∷ prices
with_price (inr e) prices = prices

-- The goroutines append under the lock, in the order in which they get there; an error adds nothing.
unfoldable pub prices_of : {F : Type 0} → Bytes → Bytes → List (PriceFetcher F) → List F
prices_of base quote [] = []
prices_of base quote (fetcher ∷ fetchers) =
    with_price (fetcher.fetch_price base quote) (prices_of base quote fetchers)

module _ {F : Type 0} (float : Float64 F) where
  abbrev pub middle_of : List F → Result F
  middle_of nums =
      let mid = length nums / 2 in
      if length nums % 2 == 1 then or_panic (at nums mid) else (do
        low ← or_panic (at nums (mid - 1))
        high ← or_panic (at nums mid)
        ok (float.div (float.add low high) (float.of_nat 2)))

  unfoldable pub compute_median : List F → Result F
  unfolding sort_slice
  compute_median nums =
      if ltb (length nums) 1
      then err (plain "invalid number of elements to compute the median")
      else middle_of (sort_slice float.is_less nums)

  -- `ended` are the fetchers in the order in which their goroutines end.
  unfoldable pub fetch_price : PriceAggregator F → List (PriceFetcher F) → Bytes → Bytes → Result F
  unfolding prices_of compute_median
  fetch_price pa ended base quote =
      let prices = prices_of (to_upper base) (to_upper quote) ended in
      if ltb (length prices) pa.min_results_num
      then err (plain "not enough responses to compute a valid price")
      else compute_median prices
