-- ===== src/VmQuery/Examples.antt =====
-- A query of a contract that answers with 300.
use mx_sdk_erdgo.Prelude.{ℕ, ◌+◌, ◌≡◌, refl, Option, some, List, [], ◌∷◌}
use mx_sdk_erdgo.Prelude.Exec.{Exec, ok}
use mx_sdk_erdgo.BigInt.{pos}
use mx_sdk_erdgo.Builders.{new_tx_data_builder, big_int_bytes, bytes_of}
use mx_sdk_erdgo.Builders.Fields.{Call, hex_strings, int64s, perform_all, argument, arguments}
use mx_sdk_erdgo.VmQuery.{
  VmValueRequest, VmOutput, VmQueryBuilder, with_argument, execute_query_uint64_from_builder,
}
use mx_sdk_erdgo.VmQuery.Numbers.{result_of, execute_query_uint64-big_int_bytes}

abbrev output : VmOutput
output = record { return_code = "ok"; return_message = ""; return_data = (1 ∷ 44 ∷ []) ∷ [] }

abbrev answer : VmValueRequest → Exec ℕ (Option VmOutput)
answer request asked = (ok (some output), asked + 1)

abbrev calls : List Call
calls = int64s (pos 300) ∷ hex_strings (48 ∷ 97 ∷ []) ∷ []

abbrev builder : VmQueryBuilder
builder = record {
  base = new_tx_data_builder;
  address = "contract";
  caller_addr = "";
  function = 103 ∷ [];
}

bytes_of_300 : output.return_data ≡ big_int_bytes (pos 300) ∷ []
unfolding big_int_bytes bytes_of
bytes_of_300 = refl

execute_query_uint64-big_int_bytes_example :
    execute_query_uint64_from_builder answer (with_argument (perform_all calls) builder) 0
    ≡ result_of 0 1 (pos 300) (arguments calls)
execute_query_uint64-big_int_bytes_example =
    execute_query_uint64-big_int_bytes answer calls builder 0 output 1 (pos 300) [] refl
      (λ args added. refl) refl bytes_of_300

-- The answer is read.
number_of_answer :
    execute_query_uint64_from_builder answer (with_argument (perform_all calls) builder) 0
    ≡ (ok 300, 1)
unfolding arguments argument big_int_bytes
number_of_answer =
    execute_query_uint64-big_int_bytes answer calls builder 0 output 1 (pos 300) [] refl
      (λ args added. refl) refl bytes_of_300
