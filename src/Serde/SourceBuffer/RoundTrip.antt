-- ===== src/Serde/SourceBuffer/RoundTrip.antt =====
-- Numbers and byte strings that are written big endian are read back.
use mx_sdk_erdgo.Prelude.{
  ℕ, zero, suc, ◌+◌, ◌-◌, ◌*◌, ◌/◌, ◌%◌, ◌<◌, ◌^◌, ◌≡◌, refl, sym, ◌∙◌, false, List, [], ◌∷◌, ◌++◌,
  arith, length, length-append, take, drop, ltb,
}
use mx_sdk_erdgo.Prelude.Exec.{ok}
use mx_sdk_erdgo.Chain.{Bytes}
use mx_sdk_erdgo.BigInt.{ℤ, pos, negsuc}
use mx_sdk_erdgo.Serde.SourceBuffer.{
  SourceBuffer, to_signed, next_bytes, big_endian, next_uint, next_uint32, next_uint64, next_int64,
  next_var_bytes,
}
use mx_sdk_erdgo.Serde.SourceBuffer.Stream.{IsInBounds, rest, next_bytes_stream}

-- 256 ^ size
abbrev pub limit : ℕ → ℕ
limit zero = 1
limit (suc size) = limit size * 256

-- The lowest `size` bytes of a number, the highest first.
unfoldable pub be_bytes : ℕ → ℕ → Bytes
be_bytes zero n = []
be_bytes (suc size) n = be_bytes size (n / 256) ++ (n % 256 ∷ [])

pub big_endian-append :
    (acc b : ℕ) (bs : Bytes) → big_endian acc (bs ++ (b ∷ [])) ≡ big_endian acc bs * 256 + b
unfolding big_endian
big_endian-append acc b [] = refl
big_endian-append acc b (c ∷ bs) = big_endian-append (acc * 256 + c) b bs

pub big_endian-be_bytes : (size n : ℕ) → n < limit size → big_endian 0 (be_bytes size n) ≡ n
unfolding be_bytes big_endian
big_endian-be_bytes zero n lt = omega arith
big_endian-be_bytes (suc size) n lt =
    rw (big_endian-append 0 (n % 256) (be_bytes size (n / 256)))
      (rw (big_endian-be_bytes size (n / 256) (omega arith)) (omega arith))

length-be_bytes : (size n : ℕ) → length (be_bytes size n) ≡ size
unfolding be_bytes
length-be_bytes zero n = refl
length-be_bytes (suc size) n =
    rw (length-append (be_bytes size (n / 256)) (n % 256 ∷ []))
      (rw (length-be_bytes size (n / 256)) (omega arith))

module _ {A : Type 0} where
  take-append : (xs ys : List A) → take (length xs) (xs ++ ys) ≡ xs
  take-append [] ys = refl
  take-append (x ∷ xs) ys = rw (take-append xs ys) refl

  drop-append : (xs ys : List A) → drop (length xs) (xs ++ ys) ≡ ys
  drop-append [] ys = refl
  drop-append (x ∷ xs) ys = drop-append xs ys

-- Bytes that are next in the buffer are read as they are.
next_bytes-append :
    (size : ℕ) (bs tail : Bytes) (sb : SourceBuffer)
    → length bs ≡ size
    → IsInBounds sb
    → size < 2 ^ 63
    → rest sb ≡ bs ++ tail
    → ((next_bytes size sb).0 ≡ ok (bs, false))
      × (rest (next_bytes size sb).1 ≡ tail)
      × IsInBounds (next_bytes size sb).1
next_bytes-append size bs tail sb l bounds fits e =
    let (r, left, within) = next_bytes_stream size sb bounds fits in
    let enough : ltb (length (bs ++ tail)) size ≡ false =
      let l' = length-append bs tail in ground arith in
    (
      r ∙ rw e (rw enough (rw (sym l) (rw (take-append bs tail) refl))),
      left ∙ rw e (rw (sym l) (drop-append bs tail)),
      within,
    )

-- A number below 256^size that is next in the buffer, the highest byte first, is what the reader of
-- numbers of `size` bytes returns. It moves behind the number.
next_uint-be_bytes :
    (size n : ℕ) (tail : Bytes) (sb : SourceBuffer)
    → IsInBounds sb
    → size < 2 ^ 63
    → n < limit size
    → rest sb ≡ be_bytes size n ++ tail
    → ((next_uint size sb).0 ≡ ok (n, false))
      × (rest (next_uint size sb).1 ≡ tail)
      × IsInBounds (next_uint size sb).1
unfolding next_uint
next_uint-be_bytes size n tail sb bounds fits lt e =
    let (r, left, within) =
      next_bytes-append size (be_bytes size n) tail sb (length-be_bytes size n) bounds fits e in
    rw r (rw (big_endian-be_bytes size n lt) (refl, left, within))

-- A byte string that is next in the buffer behind its length in four bytes is what the reader of
-- byte strings returns, if it is shorter than 2^32. It moves behind the string.
next_var_bytes-be_bytes :
    (bs tail : Bytes) (sb : SourceBuffer)
    → IsInBounds sb
    → length bs < 2 ^ 32
    → rest sb ≡ be_bytes 4 (length bs) ++ (bs ++ tail)
    → ((next_var_bytes sb).0 ≡ ok (bs, false))
      × (rest (next_var_bytes sb).1 ≡ tail)
      × IsInBounds (next_var_bytes sb).1
unfolding next_var_bytes next_uint32
next_var_bytes-be_bytes bs tail sb bounds fits e =
    let (r, left, within) =
      next_uint-be_bytes 4 (length bs) (bs ++ tail) sb bounds (omega arith) fits e in
    let (r', left', within') =
      next_bytes-append (length bs) bs tail (next_uint 4 sb).1 refl within (omega arith) left in
    rw r (r', left', within')

-- Two's complement: what an integer is written as.
unfoldable pub to_unsigned : ℕ → ℤ → ℕ
to_unsigned half (pos n) = n
to_unsigned half (negsuc n) = 2 * half - 1 - n

-- The integers from -half to half - 1.
abbrev pub InRange : ℕ → ℤ → Type 0
InRange half (pos n) = n < half
InRange half (negsuc n) = n < half

to_signed-to_unsigned :
    (half : ℕ) (z : ℤ) → InRange half z → to_signed half (to_unsigned half z) ≡ z
unfolding to_signed to_unsigned
to_signed-to_unsigned half (pos n) lt = ground arith
to_signed-to_unsigned half (negsuc n) lt = ground arith

to_unsigned-below : (half : ℕ) (z : ℤ) → InRange half z → to_unsigned half z < 2 * half
unfolding to_unsigned
to_unsigned-below half (pos n) lt = omega arith
to_unsigned-below half (negsuc n) lt = omega arith

-- A signed integer of 64 bits that is next in the buffer in two's complement, the highest byte first,
-- is what the reader returns. It moves behind the integer.
next_int64-to_unsigned :
    (z : ℤ) (tail : Bytes) (sb : SourceBuffer)
    → IsInBounds sb
    → InRange (2 ^ 63) z
    → rest sb ≡ be_bytes 8 (to_unsigned (2 ^ 63) z) ++ tail
    → ((next_int64 sb).0 ≡ ok (z, false)) × (rest (next_int64 sb).1 ≡ tail)
unfolding next_int64 next_uint64
next_int64-to_unsigned z tail sb bounds range e =
    let n = to_unsigned (2 ^ 63) z in
    let (r, left, within) =
      next_uint-be_bytes 8 n tail sb bounds (omega arith) (to_unsigned-below (2 ^ 63) z range) e in
    rw r (rw (to_signed-to_unsigned (2 ^ 63) z range) (refl, left))
