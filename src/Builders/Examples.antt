-- ===== src/Builders/Examples.antt =====
-- The theorems on the builders at concrete inputs, and tests.
use mx_sdk_erdgo.Prelude.{◌≡◌, refl, inl, List, [], ◌∷◌, arith}
use mx_sdk_erdgo.BigInt.{pos, negsuc}
use mx_sdk_erdgo.Chain.{Bytes}
use mx_sdk_erdgo.Builders.{
  new_tx_data_builder, add_arg_int64, add_arg_hex_string, big_int_bytes, set_function,
  to_data_string,
}
use mx_sdk_erdgo.Text.{join, split}
use mx_sdk_erdgo.Builders.Fields.{
  Call, hex_strings, int64s, perform, perform_all, argument, arguments, to_data_string-split,
}

-- The function "add", with the arguments 300 and "0a".
abbrev calls : List Call
calls = int64s (pos 300) ∷ hex_strings (48 ∷ 97 ∷ []) ∷ []

to_data_string-split_example :
    (d : Bytes) × (to_data_string
        (perform_all calls (set_function (97 ∷ 100 ∷ 100 ∷ []) new_tx_data_builder))
      ≡ inl d)
    × (split 64 d ≡ (97 ∷ 100 ∷ 100 ∷ []) ∷ (48 ∷ 49 ∷ 50 ∷ 99 ∷ []) ∷ (48 ∷ 97 ∷ []) ∷ [])
unfolding arguments argument big_int_bytes
to_data_string-split_example =
    to_data_string-split 97 (100 ∷ 100 ∷ []) calls
      (ground arith, (ground arith, (ground arith, tt)))

-- The sign of a number is lost.
minus_one : add_arg_int64 (negsuc 0) new_tx_data_builder ≡ add_arg_int64 (pos 1) new_tx_data_builder
unfolding add_arg_int64 big_int_bytes
minus_one = refl

-- "add@012c@0a"
text_of_calls :
    to_data_string (perform_all calls (set_function (97 ∷ 100 ∷ 100 ∷ []) new_tx_data_builder))
    ≡ inl (97 ∷ 100 ∷ 100 ∷ 64 ∷ 48 ∷ 49 ∷ 50 ∷ 99 ∷ 64 ∷ 48 ∷ 97 ∷ [])
unfolding to_data_string join perform_all perform add_arg_hex_string add_arg_int64 set_function
    new_tx_data_builder
text_of_calls = refl
