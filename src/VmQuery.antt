-- ===== src/VmQuery.antt =====
-- builders/vmQueryBuilder.go and blockchain/vmQueryGetter.go: queries of contracts, and the readings of
-- their results as truth values and numbers. `ExecuteVMQuery` of the proxy is a parameter. The error of a
-- failed query is its code and its message; what it repeats of the request is left out.
pub mod Numbers
pub mod Examples
use mx_sdk_erdgo.Prelude.{
  ℕ, String, string_eq, Bool, true, false, Option, none, some, ◌⊎◌, inl, inr, List, [], ◌∷◌, ltb,
  ◌==◌, nat_eq, if◌then◌else◌,
}
use mx_sdk_erdgo.Prelude.Exec.{
  Exec, Result, ok, err, panic, Error, ◌>>=◌, ◌>>◌, pure, raise, lift, wrapped, plain,
  not_uint64_bytes,
}
use mx_sdk_erdgo.Chain.{Address, Bytes, PubkeyConverter, u64}
use mx_sdk_erdgo.Serde.SourceBuffer.{big_endian}
use mx_sdk_erdgo.Builders.{
  TxDataBuilder, BuilderError, new_tx_data_builder, nil_address, invalid_address, nil_value,
  invalid_value, invalid_hex, of_converter, check_address, failed,
}

-- The fields of data/vmValues.go that are set or read.
pub record VmValueRequest : Type 0 where
  pub address : String
  pub func_name : Bytes
  pub caller_addr : String
  pub args : List Bytes

-- `VMOutputApi` of mx-chain-core-go, likewise.
pub record VmOutput : Type 0 where
  pub return_code : String
  pub return_message : String
  pub return_data : List Bytes

-- `base` is the embedded base builder, with the arguments and the error.
pub record VmQueryBuilder : Type 0 where
  pub base : TxDataBuilder
  pub address : String
  pub caller_addr : String
  pub function : Bytes

unfoldable pub new_vm_query_builder : VmQueryBuilder
unfolding new_tx_data_builder
new_vm_query_builder = record {
  base = new_tx_data_builder;
  address = "";
  caller_addr = "";
  function = [];
}

unfoldable pub set_function : Bytes → VmQueryBuilder → VmQueryBuilder
set_function function builder = record builder { function = function }

-- `ArgHexString`, `ArgAddress`, `ArgBigInt`, `ArgInt64` and `ArgBytes`: a method of the base builder.
unfoldable pub with_argument : (TxDataBuilder → TxDataBuilder) → VmQueryBuilder → VmQueryBuilder
with_argument add builder = record builder { base = add builder.base }

abbrev pub refuse : BuilderError → VmQueryBuilder → VmQueryBuilder
refuse e builder = record builder { base = failed e builder.base }

-- The text of an address that is checked first, or the error.
abbrev pub text_of_address :
    PubkeyConverter → Option Address → Option BuilderError → Result String ⊎ BuilderError
text_of_address converter address (some e) = inr e
text_of_address converter none none = inr nil_address
text_of_address converter (some address) none = inl (converter.encode address)

abbrev pub with_text :
    (String → VmQueryBuilder → VmQueryBuilder)
    → Result String ⊎ BuilderError
    → VmQueryBuilder
    → Result VmQueryBuilder
with_text set (inr e) builder = ok (refuse e builder)
with_text set (inl (err e)) builder = ok (refuse (of_converter e) builder)
with_text set (inl panic) builder = panic
with_text set (inl (ok text)) builder = ok (set text builder)

-- `CallerAddress` and `Address` look at no earlier error, and write over it.
unfoldable pub set_caller_address :
    PubkeyConverter → Option Address → VmQueryBuilder → Result VmQueryBuilder
unfolding check_address
set_caller_address converter address =
    with_text (λ text builder. record builder { caller_addr = text })
      (text_of_address converter address (check_address address))

unfoldable pub set_address :
    PubkeyConverter → Option Address → VmQueryBuilder → Result VmQueryBuilder
unfolding check_address
set_address converter address =
    with_text (λ text builder. record builder { address = text })
      (text_of_address converter address (check_address address))

unfoldable pub to_vm_value_request : VmQueryBuilder → VmValueRequest ⊎ BuilderError
to_vm_value_request builder = elim (builder.base.err) [
  | some e ↦ inr e
  | none ↦ inl record {
    address = builder.address;
    func_name = builder.function;
    caller_addr = builder.caller_addr;
    args = builder.base.args;
  }
]

-- The error of a builder as any other.
abbrev pub error_of : BuilderError → Error
error_of nil_address = plain "nil address"
error_of invalid_address = plain "invalid address"
error_of nil_value = plain "nil value"
error_of invalid_value = plain "invalid value"
error_of (invalid_hex hexed) = plain "invalid hex string"
error_of (of_converter e) = e

-- `NewQueryResponseError`
abbrev pub query_response_error : String → Error → Error
query_response_error code message = wrapped code message

-- An answer without data is a nil dereference.
unfoldable pub data_of : Option VmOutput → Result (List Bytes)
data_of none = panic
data_of (some output) =
    if output.return_code == "ok"
    then ok output.return_data
    else err (query_response_error output.return_code (plain output.return_message))

-- `strconv.ParseBool` takes the decimal texts of 0 and 1, and of no other byte.
unfoldable pub parse_bool : Bytes → Result Bool
parse_bool [] = ok false
parse_bool (b ∷ buff) =
    if b == 0
    then ok false
    else if b == 1
    then ok true
    else err (
        query_response_error "internal error" (plain "error converting the received bytes to bool"))

-- `parseUInt64FromByteSlice`, and the error around it.
unfoldable pub parse_uint64_from_byte_slice : Bytes → Result ℕ
parse_uint64_from_byte_slice bytes =
    let num = big_endian 0 bytes in
    if ltb num u64 then ok num else err (query_response_error "internal error" not_uint64_bytes)

abbrev pub first_bool : List Bytes → Result Bool
first_bool [] = ok false
first_bool (buff ∷ rest) = parse_bool buff

abbrev pub first_uint64 : List Bytes → Result ℕ
first_uint64 [] = ok 0
first_uint64 ([] ∷ rest) = ok 0
first_uint64 ((b ∷ bytes) ∷ rest) = parse_uint64_from_byte_slice (b ∷ bytes)

module _ {W : Type 0} (execute_vm_query : VmValueRequest → Exec W (Option VmOutput)) where
  unfoldable pub execute_query_returning_bytes : Option VmValueRequest → Exec W (List Bytes)
  unfolding data_of
  execute_query_returning_bytes none = raise (plain "nil request")
  execute_query_returning_bytes (some request) = do
    output ← execute_vm_query request
    lift (data_of output)

  unfoldable pub execute_query_returning_bool : Option VmValueRequest → Exec W Bool
  unfolding execute_query_returning_bytes parse_bool
  execute_query_returning_bool request = do
    response ← execute_query_returning_bytes request
    lift (first_bool response)

  unfoldable pub execute_query_returning_uint64 : Option VmValueRequest → Exec W ℕ
  unfolding execute_query_returning_bytes parse_uint64_from_byte_slice
  execute_query_returning_uint64 request = do
    response ← execute_query_returning_bytes request
    lift (first_uint64 response)

  abbrev pub with_request :
      {A : Type 0} → (Option VmValueRequest → Exec W A) → VmValueRequest ⊎ BuilderError → Exec W A
  with_request execute (inr e) = raise (error_of e)
  with_request execute (inl request) = execute (some request)

  unfoldable pub execute_query_from_builder : VmQueryBuilder → Exec W (List Bytes)
  unfolding execute_query_returning_bytes to_vm_value_request
  execute_query_from_builder builder =
      with_request execute_query_returning_bytes (to_vm_value_request builder)

  unfoldable pub execute_query_uint64_from_builder : VmQueryBuilder → Exec W ℕ
  unfolding execute_query_returning_uint64 to_vm_value_request
  execute_query_uint64_from_builder builder =
      with_request execute_query_returning_uint64 (to_vm_value_request builder)

  unfoldable pub execute_query_bool_from_builder : VmQueryBuilder → Exec W Bool
  unfolding execute_query_returning_bool to_vm_value_request
  execute_query_bool_from_builder builder =
      with_request execute_query_returning_bool (to_vm_value_request builder)
