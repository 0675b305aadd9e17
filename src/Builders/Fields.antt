-- ===== src/Builders/Fields.antt =====
-- The data field that a sequence of calls of the builder gives.
use mx_sdk_erdgo.Prelude.{
  ℕ, suc, zero, ◌≤◌, ◌<◌, ◌/◌, ◌%◌, ◌==◌, nat_eq, ◌≡◌, refl, sym, ap, ◌∙◌, Bool-cases, ◌⊎◌, inl,
  inr, Option, none, some, List, [], ◌∷◌, ◌++◌, append_assoc, append-nil, arith, All, if◌then◌else◌,
}
use mx_sdk_erdgo.BigInt.{ℤ}
use mx_sdk_erdgo.Chain.{Address, Bytes}
use mx_sdk_erdgo.Builders.{
  BuilderError, nil_address, invalid_address, nil_value, invalid_value, invalid_hex, TxDataBuilder,
  new_tx_data_builder, bytes_of, abs, big_int_bytes, or_zero, add_bytes, failed, is_valid,
  check_address, set_function, add_arg_hex_string, add_arg_address, add_arg_big_int, add_arg_int64,
  add_arg_bytes, to_data_string,
}
use mx_sdk_erdgo.Serde.SourceBuffer.{big_endian}
use mx_sdk_erdgo.Serde.SourceBuffer.RoundTrip.{big_endian-append}
use mx_sdk_erdgo.Text.{join, split, HasNoSeparator, split-join}
use mx_sdk_erdgo.Text.Hex.{
  IsPunctuation, encode_to_string, is_hex, encode_to_string-HasNoSeparator, is_hex-HasNoSeparator,
}

-- The calls that add an argument. `ArgBytesList` is a sequence of `ArgBytes`.
pub data Call : Type 0 where
  hex_strings bytes : Bytes → Call
  addresses : Option Address → Call
  big_ints : Option ℤ → Call
  int64s : ℤ → Call

unfoldable pub perform : Call → TxDataBuilder → TxDataBuilder
perform (hex_strings hexed) = add_arg_hex_string hexed
perform (bytes bs) = add_arg_bytes bs
perform (addresses a) = add_arg_address a
perform (big_ints z) = add_arg_big_int z
perform (int64s z) = add_arg_int64 z

unfoldable pub perform_all : List Call → TxDataBuilder → TxDataBuilder
perform_all [] builder = builder
perform_all (c ∷ cs) builder = perform_all cs (perform c builder)

-- The argument that a call stands for, or its error.
unfoldable pub argument : Call → Bytes ⊎ BuilderError
argument (hex_strings hexed) = if is_hex hexed then inl hexed else inr (invalid_hex hexed)
argument (bytes []) = inr invalid_value
argument (bytes (b ∷ bs)) = inl (encode_to_string (b ∷ bs))
argument (addresses none) = inr nil_address
argument (addresses (some a)) =
    if is_valid a then inl (encode_to_string (or_zero a)) else inr invalid_address
argument (big_ints none) = inr nil_value
argument (big_ints (some z)) = inl (encode_to_string (or_zero (big_int_bytes z)))
argument (int64s z) = inl (encode_to_string (or_zero (big_int_bytes z)))

abbrev pub prepend : Bytes ⊎ BuilderError → List Bytes ⊎ BuilderError → List Bytes ⊎ BuilderError
prepend (inr e) rest = inr e
prepend (inl a) (inl as') = inl (a ∷ as')
prepend (inl a) (inr e) = inr e

-- The arguments of the calls, or the first error.
unfoldable pub arguments : List Call → List Bytes ⊎ BuilderError
arguments [] = inl []
arguments (c ∷ cs) = prepend (argument c) (arguments cs)

-- A builder without an error.
abbrev pub building : Bytes → List Bytes → TxDataBuilder
building f args = record { function = f; args = args; err = none }

abbrev Added : Bytes → List Bytes → Bytes ⊎ BuilderError → TxDataBuilder → Type 0
Added f args (inl a) builder = builder ≡ building f (args ++ (a ∷ []))
Added f args (inr e) builder = builder.err ≡ some e

perform-Added :
    (c : Call) (f : Bytes) (args : List Bytes)
    → Added f args (argument c) (perform c (building f args))
unfolding perform argument add_arg_hex_string add_arg_bytes add_arg_address add_arg_big_int
    add_arg_int64 check_address add_bytes failed
perform-Added (hex_strings hexed) f args = elim (Bool-cases (is_hex hexed)) [
  | inl good ↦ rw good refl
  | inr bad ↦ rw bad refl
]
perform-Added (bytes []) f args = refl
perform-Added (bytes (b ∷ bs)) f args = refl
perform-Added (addresses none) f args = refl
perform-Added (addresses (some a)) f args = elim (Bool-cases (is_valid a)) [
  | inl good ↦ rw good refl
  | inr bad ↦ rw bad refl
]
perform-Added (big_ints none) f args = refl
perform-Added (big_ints (some z)) f args = refl
perform-Added (int64s z) f args = refl

perform-failed :
    (c : Call) (builder : TxDataBuilder) (e : BuilderError)
    → builder.err ≡ some e
    → perform c builder ≡ builder
unfolding perform add_arg_hex_string add_arg_bytes add_arg_address add_arg_big_int add_arg_int64
perform-failed (hex_strings hexed) builder e h = rw h refl
perform-failed (bytes []) builder e h = rw h refl
perform-failed (bytes (b ∷ bs)) builder e h = rw h refl
perform-failed (addresses a) builder e h = rw h refl
perform-failed (big_ints none) builder e h = rw h refl
perform-failed (big_ints (some z)) builder e h = rw h refl
perform-failed (int64s z) builder e h = rw h refl

perform_all-failed :
    (cs : List Call) (builder : TxDataBuilder) (e : BuilderError)
    → builder.err ≡ some e
    → (perform_all cs builder).err ≡ some e
unfolding perform_all
perform_all-failed [] builder e h = h
perform_all-failed (c ∷ cs) builder e h =
    perform_all-failed cs (perform c builder) e (ap (λ b. b.err) (perform-failed c builder e h) ∙ h)

abbrev pub AllAdded : Bytes → List Bytes → List Bytes ⊎ BuilderError → TxDataBuilder → Type 0
AllAdded f args (inl more) builder = builder ≡ building f (args ++ more)
AllAdded f args (inr e) builder = builder.err ≡ some e

-- The calls behind the first, by what the first one gives.
behind_first :
    (cs : List Call) (f : Bytes) (args : List Bytes) (a : Bytes ⊎ BuilderError)
    (builder : TxDataBuilder)
    → Added f args a builder
    → ((args' : List Bytes) → AllAdded f args' (arguments cs) (perform_all cs (building f args')))
    → AllAdded f args (prepend a (arguments cs)) (perform_all cs builder)
behind_first cs f args (inr e) builder done ih = perform_all-failed cs builder e done
behind_first cs f args (inl a) builder done ih = rw done (
    regrouped (arguments cs) (perform_all cs (building f (args ++ (a ∷ []))))
      (ih (args ++ (a ∷ []))))
  where
    regrouped :
        (rest : List Bytes ⊎ BuilderError) (after : TxDataBuilder)
        → AllAdded f (args ++ (a ∷ [])) rest after
        → AllAdded f args (prepend (inl a) rest) after
    regrouped (inl more) after e = rw (sym (append_assoc args (a ∷ []) more)) e
    regrouped (inr x) after e = e

pub perform_all-arguments :
    (cs : List Call) (f : Bytes) (args : List Bytes)
    → AllAdded f args (arguments cs) (perform_all cs (building f args))
unfolding perform_all arguments
perform_all-arguments [] f args = rw (append-nil args) refl
perform_all-arguments (c ∷ cs) f args =
    behind_first cs f args (argument c) (perform c (building f args)) (perform-Added c f args)
      (perform_all-arguments cs f)

at_sign : IsPunctuation 64
at_sign = inr (omega arith, omega arith)

argument-HasNoSeparator : (c : Call) (a : Bytes) → argument c ≡ inl a → HasNoSeparator 64 a
unfolding argument
argument-HasNoSeparator (hex_strings hexed) a e = elim (Bool-cases (is_hex hexed)) [
  | inl good ↦
      let same : hexed ≡ a = ground arith in
      rw (sym same) (is_hex-HasNoSeparator 64 at_sign hexed good)
  | inr bad ↦ ground arith
]
argument-HasNoSeparator (bytes []) a e = ground arith
argument-HasNoSeparator (bytes (b ∷ bs)) a e =
    let same : encode_to_string (b ∷ bs) ≡ a = ground arith in
    rw (sym same) (encode_to_string-HasNoSeparator 64 at_sign (b ∷ bs))
argument-HasNoSeparator (addresses none) a e = ground arith
argument-HasNoSeparator (addresses (some x)) a e =
    let same : encode_to_string (or_zero x) ≡ a = ground arith in
    rw (sym same) (encode_to_string-HasNoSeparator 64 at_sign (or_zero x))
argument-HasNoSeparator (big_ints none) a e = ground arith
argument-HasNoSeparator (big_ints (some z)) a e =
    let same : encode_to_string (or_zero (big_int_bytes z)) ≡ a = ground arith in
    rw (sym same) (encode_to_string-HasNoSeparator 64 at_sign (or_zero (big_int_bytes z)))
argument-HasNoSeparator (int64s z) a e =
    let same : encode_to_string (or_zero (big_int_bytes z)) ≡ a = ground arith in
    rw (sym same) (encode_to_string-HasNoSeparator 64 at_sign (or_zero (big_int_bytes z)))

abbrev AllSeparate : List Bytes ⊎ BuilderError → Type 0
AllSeparate (inl more) = All (HasNoSeparator 64) more
AllSeparate (inr e) = Unit

prepend-AllSeparate :
    (a : Bytes ⊎ BuilderError) (rest : List Bytes ⊎ BuilderError)
    → ((b : Bytes) → a ≡ inl b → HasNoSeparator 64 b)
    → AllSeparate rest
    → AllSeparate (prepend a rest)
prepend-AllSeparate (inr e) rest separate all = tt
prepend-AllSeparate (inl b) (inl more) separate all = (separate b refl, all)
prepend-AllSeparate (inl b) (inr e) separate all = tt

arguments-AllSeparate : (cs : List Call) → AllSeparate (arguments cs)
unfolding arguments
arguments-AllSeparate [] = tt
arguments-AllSeparate (c ∷ cs) =
    prepend-AllSeparate (argument c) (arguments cs) (argument-HasNoSeparator c)
      (arguments-AllSeparate cs)

-- What the builder returns, by the arguments of its calls or their first error.
abbrev pub Returns : Bytes → List Bytes ⊎ BuilderError → Bytes ⊎ BuilderError → Type 0
Returns f (inl args) r = (d : Bytes) × (r ≡ inl d) × (split 64 d ≡ f ∷ args)
Returns f (inr e) r = r ≡ inr e

-- Any sequence of calls that add arguments to a new builder with a function that is not empty and has
-- no separator: if one of them has an error, the first error is returned. Otherwise a text is returned
-- that is split at the separators into the function and the arguments of the calls, in their order.
pub to_data_string-split :
    (c : ℕ) (f : Bytes) (cs : List Call)
    → HasNoSeparator 64 (c ∷ f)
    → Returns
        (c ∷ f)
        (arguments cs)
        (to_data_string (perform_all cs (set_function (c ∷ f) new_tx_data_builder)))
unfolding to_data_string set_function new_tx_data_builder
to_data_string-split c f cs separate =
    go (arguments cs) (perform_all cs (building (c ∷ f) [])) (arguments-AllSeparate cs)
      (perform_all-arguments cs (c ∷ f) [])
  where
    go :
        (as' : List Bytes ⊎ BuilderError) (builder : TxDataBuilder)
        → AllSeparate as'
        → AllAdded (c ∷ f) [] as' builder
        → Returns (c ∷ f) as' (to_data_string builder)
    go (inl args) builder all e =
        rw e (join 64 ((c ∷ f) ∷ args), refl, split-join 64 (c ∷ f) args separate all)
    go (inr x) builder all e = rw e refl

big_endian-bytes_of : (fuel n : ℕ) → n ≤ fuel → big_endian 0 (bytes_of fuel n) ≡ n
unfolding bytes_of big_endian
big_endian-bytes_of zero n le = omega arith
big_endian-bytes_of (suc fuel) n le = elim (Bool-cases (n == 0)) [
  | inl nothing ↦ rw nothing (ground arith)
  | inr something ↦
      let positive : 0 < n = ground arith in
      rw something (
        rw (big_endian-append 0 (n % 256) (bytes_of fuel (n / 256)))
          (rw (big_endian-bytes_of fuel (n / 256) (omega arith)) (omega arith)))
]

-- The bytes of a number, read as a number with the highest byte first, are its absolute value.
pub big_endian-big_int_bytes : (z : ℤ) → big_endian 0 (big_int_bytes z) ≡ abs z
unfolding big_int_bytes
big_endian-big_int_bytes z = big_endian-bytes_of (abs z) (abs z) (omega arith)
