-- ===== src/Aggregator/Pairs.antt =====
-- aggregator/pair.go and aggregator/converters.go.
use mx_sdk_erdgo.Prelude.{ℕ, ◌||◌, List, [], ◌∷◌, length, ltb, if◌then◌else◌}
use mx_sdk_erdgo.Prelude.Exec.{Result, ok, err, wrapped, plain}
use mx_sdk_erdgo.Prelude.Results.{◌>>=◌}
use mx_sdk_erdgo.Chain.{Bytes}
use mx_sdk_erdgo.Aggregator.{Float64}

pub record ArgsPair : Type 0 where
  pub base : Bytes
  pub quote : Bytes
  pub percent_difference_to_notify : ℕ
  pub decimals : ℕ
  pub exchanges : List Bytes

pub record Pair (F : Type 0) : Type 0 where
  pub base : Bytes
  pub quote : Bytes
  pub percent_difference_to_notify : ℕ
  pub decimals : ℕ
  pub trim_precision : F
  pub denomination_factor : ℕ
  pub exchanges : List Bytes

unfoldable pub check_pair_args : ArgsPair → Result (Unit {0})
check_pair_args args =
    if ltb (length args.base) 1
    then err (plain "nil base name")
    else if ltb (length args.quote) 1
    then err (plain "nil quote name")
    else if ltb args.decimals 1 || ltb 18 args.decimals
    then err (wrapped "got" (plain "invalid decimals"))
    else if ltb (length args.exchanges) 1
    then err (plain "nil exchanges map")
    else ok tt

module _ {F : Type 0} (float : Float64 F) where
  unfoldable pub new_pair : ArgsPair → Result (Pair F)
  unfolding check_pair_args
  new_pair args = do
    _ ← check_pair_args args
    let factor = float.power_of_ten args.decimals
    ok record {
      base = args.base;
      quote = args.quote;
      percent_difference_to_notify = args.percent_difference_to_notify;
      decimals = args.decimals;
      trim_precision = float.div (float.of_nat 1) factor;
      denomination_factor = float.to_uint64 factor;
      exchanges = args.exchanges;
    }

  -- The loop of `NewPriceNotifier`; a nil argument is left out.
  unfoldable pub new_pairs : List ArgsPair → Result (List (Pair F))
  unfolding new_pair
  new_pairs [] = ok []
  new_pairs (args ∷ rest) = do pair ← new_pair args; pairs ← new_pairs rest; ok (pair ∷ pairs)

  abbrev pub trim : F → F → F
  trim v precision = float.mul (float.round (float.div v precision)) precision
