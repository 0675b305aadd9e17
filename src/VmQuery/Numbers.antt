-- ===== src/VmQuery/Numbers.antt =====
-- Queries that a builder has made, and the numbers that they return.
use mx_sdk_erdgo.Prelude.{
  ℕ, ◌≡◌, refl, ap, ◌∙◌, string_eq, Option, some, ◌⊎◌, inl, inr, List, [], ◌∷◌, ltb, nat_eq,
  if◌then◌else◌,
}
use mx_sdk_erdgo.Prelude.Exec.{Exec, Result, ok, err, not_uint64_bytes}
use mx_sdk_erdgo.Chain.{Bytes, u64}
use mx_sdk_erdgo.BigInt.{ℤ}
use mx_sdk_erdgo.Serde.SourceBuffer.{big_endian}
use mx_sdk_erdgo.Builders.{TxDataBuilder, BuilderError, new_tx_data_builder, abs, big_int_bytes}
use mx_sdk_erdgo.Builders.Fields.{
  Call, perform_all, arguments, AllAdded, building, perform_all-arguments, big_endian-big_int_bytes,
}
use mx_sdk_erdgo.VmQuery.{
  VmValueRequest, VmOutput, VmQueryBuilder, with_argument, to_vm_value_request, data_of,
  query_response_error, error_of, parse_uint64_from_byte_slice, first_uint64,
  execute_query_returning_bytes, execute_query_returning_uint64, execute_query_uint64_from_builder,
}

-- The request of a builder with these arguments.
abbrev pub request_of : VmQueryBuilder → List Bytes → VmValueRequest
request_of builder args = record {
  address = builder.address;
  func_name = builder.function;
  caller_addr = builder.caller_addr;
  args = args;
}

-- The request with the arguments of the calls, or their first error.
abbrev pub request_or_error :
    VmQueryBuilder → List Bytes ⊎ BuilderError → VmValueRequest ⊎ BuilderError
request_or_error builder (inl args) = inl (request_of builder args)
request_or_error builder (inr e) = inr e

-- A number of 64 bits, or the error.
abbrev pub number_or_error : ℕ → Result ℕ
number_or_error n =
    if ltb n u64 then ok n else err (query_response_error "internal error" not_uint64_bytes)

to_vm_value_request-arguments :
    (calls : List Call) (builder : VmQueryBuilder)
    → builder.base ≡ new_tx_data_builder
    → to_vm_value_request (with_argument (perform_all calls) builder)
      ≡ request_or_error builder (arguments calls)
unfolding to_vm_value_request with_argument new_tx_data_builder
to_vm_value_request-arguments calls builder new = rw new (
    made (arguments calls) (perform_all calls (building [] [])) (perform_all-arguments calls [] []))
  where
    made :
        (r : List Bytes ⊎ BuilderError) (base : TxDataBuilder)
        → AllAdded [] [] r base
        → to_vm_value_request (record builder { base = base }) ≡ request_or_error builder r
    made (inl more) base e = ap (λ b. to_vm_value_request (record builder { base = b })) e
    made (inr x) base e = rw e refl

first_uint64-big_endian :
    (bs : Bytes) (more : List Bytes) → first_uint64 (bs ∷ more) ≡ number_or_error (big_endian 0 bs)
unfolding big_endian parse_uint64_from_byte_slice
first_uint64-big_endian [] more = refl
first_uint64-big_endian (b ∷ bs) more = refl

-- What a query gives: the error of a call, with the world as it was, or the number of the answer.
abbrev pub result_of : {W : Type 0} → W → W → ℤ → List Bytes ⊎ BuilderError → Result ℕ × W
result_of w end z (inr e) = (err (error_of e), w)
result_of w end z (inl args) = (number_or_error (abs z), end)

-- A query of any sequence of calls that add arguments to a new builder: if one of them has an error, the
-- first error is returned, and the proxy is not asked. Otherwise it is asked with the arguments of the
-- calls, in their order; and where the contract answers that, with success, with the bytes of a number, the
-- result is the absolute value of the number, if that is below 2^64, and an error if not.
pub execute_query_uint64-big_int_bytes :
    {W : Type 0} (execute_vm_query : VmValueRequest → Exec W (Option VmOutput)) (calls : List Call)
    (builder : VmQueryBuilder) (w : W) (output : VmOutput) (end : W) (z : ℤ) (more : List Bytes)
    → builder.base ≡ new_tx_data_builder
    → ((args : List Bytes)
        → arguments calls ≡ inl args
        → execute_vm_query (request_of builder args) w ≡ (ok (some output), end))
    → output.return_code ≡ "ok"
    → output.return_data ≡ big_int_bytes z ∷ more
    → execute_query_uint64_from_builder execute_vm_query
        (with_argument (perform_all calls) builder)
        w
      ≡ result_of w end z (arguments calls)
unfolding execute_query_uint64_from_builder execute_query_returning_uint64
    execute_query_returning_bytes data_of
execute_query_uint64-big_int_bytes execute_vm_query calls builder w output end z more new answers
      success returned =
    rw (to_vm_value_request-arguments calls builder new) (elim (either (arguments calls)) [
      | inl (args, added) ↦
          let number =
            first_uint64-big_endian (big_int_bytes z) more
            ∙ ap number_or_error (big_endian-big_int_bytes z) in
          rw added (rw (answers args added) (rw success (rw returned (rw number refl))))
      | inr (e, failed) ↦ rw failed refl
    ])
  where
    either :
        (r : List Bytes ⊎ BuilderError)
        → ((args : List Bytes) × (r ≡ inl args)) ⊎ ((e : BuilderError) × (r ≡ inr e))
    either (inl args) = inl (args, refl)
    either (inr e) = inr (e, refl)
