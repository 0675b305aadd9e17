-- ===== src/Aggregator/Notifee/Batches.antt =====
-- What a batch carries.
use mx_sdk_erdgo.Prelude.{
  ℕ, ◌^◌, ◌<◌, true, ltb, ◌≡◌, refl, sym, ap, ◌⊎◌, inl, inr, List, [], ◌∷◌, arith,
}
use mathlib.Core.Path.{subst}
use mx_sdk_erdgo.Text.Ascii.{codes}
use mx_sdk_erdgo.Prelude.Exec.{Result, ok, err}
use mx_sdk_erdgo.Chain.{Bytes}
use mx_sdk_erdgo.BigInt.{pos}
use mx_sdk_erdgo.Builders.{
  TxDataBuilder, BuilderError, new_tx_data_builder, set_function, to_data_string,
}
use mx_sdk_erdgo.Builders.Fields.{
  Call, bytes, int64s, perform, perform_all, arguments, Returns, to_data_string-split,
}
use mx_sdk_erdgo.VmQuery.{error_of}
use mx_sdk_erdgo.Text.{split, HasNoSeparator}
use mx_sdk_erdgo.Workflows.MoveBalance.{to_int64}
use mx_sdk_erdgo.Aggregator.Notifier.{ArgsPriceChanged}
use mx_sdk_erdgo.Aggregator.Notifee.{function, add_price_changes, of_builder, prepare_tx_data}

-- The five arguments of each change.
abbrev pub calls_of : List ArgsPriceChanged → List Call
calls_of [] = []
calls_of (change ∷ changes) =
    bytes change.base
    ∷ (bytes change.quote
        ∷ (int64s (pos change.timestamp)
            ∷ (int64s (pos change.denominated_price)
                ∷ (int64s (pos change.decimals) ∷ calls_of changes))))

-- What fits in an int64. Another price or number of decimals changes in the conversion.
abbrev pub FitInt64 : List ArgsPriceChanged → Type 0
FitInt64 [] = Unit
FitInt64 (change ∷ changes) =
    (change.denominated_price < 2 ^ 63) × (change.decimals < 2 ^ 63) × FitInt64 changes

kept_by_conversion : (n : ℕ) → n < 2 ^ 63 → to_int64 n ≡ pos n
kept_by_conversion n lt = let small : ltb n (2 ^ 63) ≡ true = ground arith in rw small refl

added_by_calls :
    (changes : List ArgsPriceChanged) (builder : TxDataBuilder)
    → FitInt64 changes
    → add_price_changes changes builder ≡ perform_all (calls_of changes) builder
unfolding add_price_changes perform_all perform
added_by_calls [] builder fit = refl
added_by_calls (change ∷ changes) builder (price, decimals, fit) =
    rw (kept_by_conversion change.denominated_price price)
      (rw (kept_by_conversion change.decimals decimals) (added_by_calls changes _ fit))

function-clean : HasNoSeparator 64 function
function-clean = ground arith

-- What the payload is, by the arguments or their first error.
abbrev pub IsBatch : List Bytes ⊎ BuilderError → Result Bytes → Type 0
IsBatch (inl args) r = (payload : Bytes) × (r ≡ ok payload) × (split 64 payload ≡ function ∷ args)
IsBatch (inr e) r = r ≡ err (error_of e)

converted_changes :
    (args : List Bytes ⊎ BuilderError) (r : Bytes ⊎ BuilderError)
    → Returns function args r
    → IsBatch args (of_builder r)
converted_changes (inl args) r (payload, made, parts) = (payload, ap of_builder made, parts)
converted_changes (inr e) r made = ap of_builder made

-- Where the prices and the decimals are below 2^63: the data of a batch are split at '@' into the name of
-- the function and five arguments for each change, in the order of the changes: the base, the quote, the
-- time, the price and the decimals, of which the last three are whole numbers without a sign. It is an
-- error if one of the texts is empty.
pub prepare_tx_data-IsBatch :
    (changes : List ArgsPriceChanged)
    → FitInt64 changes
    → IsBatch (arguments (calls_of changes)) (prepare_tx_data changes)
unfolding prepare_tx_data
prepare_tx_data-IsBatch changes fit =
    let built = to_data_string-split 115 (codes "ubmitBatch") (calls_of changes) function-clean in
    let same = added_by_calls changes (set_function function new_tx_data_builder) fit in
    converted_changes (arguments (calls_of changes)) _ (
      subst (λ b. Returns function (arguments (calls_of changes)) (to_data_string b)) (sym same)
        built)
