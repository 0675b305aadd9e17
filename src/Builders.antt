-- ===== src/Builders.antt =====
-- The package builders: builders/baseBuilder.go and builders/txDataBuilder.go, the data field of a
-- call of a contract. Texts are their bytes; the builder is changed in place, so a call returns it.
pub mod Fields
pub mod Examples
use mx_sdk_erdgo.Prelude.{
  ℕ, zero, suc, ◌+◌, ◌-◌, ◌/◌, ◌%◌, Bool, true, false, ◌&&◌, ◌||◌, Option, none, some, List, [],
  ◌∷◌, ◌++◌, length, ltb, leb, ◌==◌, nat_eq, if◌then◌else◌, ◌⊎◌, inl, inr,
}
use mx_sdk_erdgo.Prelude.Exec.{Error}
use mx_sdk_erdgo.BigInt.{ℤ, pos, negsuc}
use mx_sdk_erdgo.Chain.{Address, Bytes}
use mx_sdk_erdgo.Text.{join}
use mx_sdk_erdgo.Text.Hex.{encode_to_string, is_hex}

pub data BuilderError : Type 0 where
  nil_address invalid_address nil_value invalid_value : BuilderError
  invalid_hex : Bytes → BuilderError
  of_converter : Error → BuilderError

-- `baseBuilder`, embedded in `txDataBuilder`.
pub record TxDataBuilder : Type 0 where
  pub function : Bytes
  pub args : List Bytes
  pub err : Option BuilderError

unfoldable pub new_tx_data_builder : TxDataBuilder
new_tx_data_builder = record { function = []; args = []; err = none }

-- `big.Int.Bytes`: the bytes of the absolute value, the highest first and not 0. A number has no more
-- bytes than its value, which is the fuel.
unfoldable pub bytes_of : ℕ → ℕ → Bytes
bytes_of zero n = []
bytes_of (suc fuel) n =
    let higher = bytes_of fuel (n / 256) in if n == 0 then [] else higher ++ (n % 256 ∷ [])

abbrev pub abs : ℤ → ℕ
abs (pos n) = n
abs (negsuc n) = suc n

unfoldable pub big_int_bytes : ℤ → Bytes
unfolding bytes_of
big_int_bytes z = bytes_of (abs z) (abs z)

abbrev pub or_zero : Bytes → Bytes
or_zero [] = 0 ∷ []
or_zero (b ∷ bs) = b ∷ bs

unfoldable pub add_bytes : Bytes → TxDataBuilder → TxDataBuilder
add_bytes bytes builder = record builder {
  args = builder.args ++ (encode_to_string (or_zero bytes) ∷ []);
}

unfoldable pub failed : BuilderError → TxDataBuilder → TxDataBuilder
failed e builder = record builder { err = some e }

-- `if builder.err != nil { return }`
abbrev pub unless_failed : (TxDataBuilder → TxDataBuilder) → TxDataBuilder → TxDataBuilder
unless_failed f builder = elim (builder.err) [ none ↦ f builder | some e ↦ builder ]

-- `Address.IsValid` of data/address.go.
unfoldable pub is_valid : Address → Bool
is_valid address = length address == 32

unfoldable pub check_address : Option Address → Option BuilderError
unfolding is_valid
check_address none = some nil_address
check_address (some address) = if is_valid address then none else some invalid_address

unfoldable pub set_function : Bytes → TxDataBuilder → TxDataBuilder
set_function f builder = record builder { function = f }

unfoldable pub add_arg_hex_string : Bytes → TxDataBuilder → TxDataBuilder
unfolding failed
add_arg_hex_string hexed = unless_failed (λ builder.
    if is_hex hexed
    then record builder { args = builder.args ++ (hexed ∷ []) }
    else failed (invalid_hex hexed) builder)

abbrev pub add_checked : Option Address → Option BuilderError → TxDataBuilder → TxDataBuilder
add_checked address (some e) builder = failed e builder
add_checked none none builder = builder
add_checked (some address) none builder = add_bytes address builder

unfoldable pub add_arg_address : Option Address → TxDataBuilder → TxDataBuilder
unfolding check_address failed add_bytes
add_arg_address address =
    unless_failed (λ builder. add_checked address (check_address address) builder)

unfoldable pub add_arg_big_int : Option ℤ → TxDataBuilder → TxDataBuilder
unfolding failed add_bytes big_int_bytes
add_arg_big_int none = unless_failed (failed nil_value)
add_arg_big_int (some value) = unless_failed (add_bytes (big_int_bytes value))

unfoldable pub add_arg_int64 : ℤ → TxDataBuilder → TxDataBuilder
unfolding add_bytes big_int_bytes
add_arg_int64 value = unless_failed (add_bytes (big_int_bytes value))

-- An empty argument is an error, but is added too.
unfoldable pub add_arg_bytes : Bytes → TxDataBuilder → TxDataBuilder
unfolding add_bytes failed
add_arg_bytes [] = unless_failed (λ builder. add_bytes [] (failed invalid_value builder))
add_arg_bytes (b ∷ bs) = unless_failed (add_bytes (b ∷ bs))

unfoldable pub arg_bytes_list : List Bytes → TxDataBuilder → TxDataBuilder
unfolding add_arg_bytes
arg_bytes_list [] builder = builder
arg_bytes_list (arg ∷ list) builder = arg_bytes_list list (add_arg_bytes arg builder)

abbrev pub parts : Bytes → List Bytes → List Bytes
parts [] args = args
parts (c ∷ cs) args = (c ∷ cs) ∷ args

unfoldable pub to_data_string : TxDataBuilder → Bytes ⊎ BuilderError
to_data_string builder = elim (builder.err) [
  | some e ↦ inr e
  | none ↦ inl (join 64 (parts builder.function builder.args))
]
