-- ===== src/Text/Decimal.antt =====
-- strconv.ParseInt for base 10 and 64 bits, and `%d` of fmt.
use mx_sdk_erdgo.Prelude.{
  ℕ, zero, suc, ◌+◌, ◌-◌, ◌*◌, ◌/◌, ◌%◌, ◌^◌, ◌<◌, ◌≤◌, ◌≡◌, refl, ◌∙◌, Bool, true, false,
  Bool-cases, inl, inr, ◌&&◌, Option, none, some, [], ◌∷◌, ◌++◌, arith, All, ltb, leb, ◌==◌, nat_eq,
  if◌then◌else◌, length, length-append,
}
use mx_sdk_erdgo.Chain.{Bytes}
use mx_sdk_erdgo.BigInt.{ℤ, pos, negsuc, decimal, digits, set_string}
use mx_sdk_erdgo.Text.{HasNoSeparator}
use mx_sdk_erdgo.Text.Hex.{AreBytes}

-- The fuel is the number: it has no more digits.
unfoldable pub digits_of : ℕ → ℕ → Bytes
digits_of zero n = (48 + n) ∷ []
digits_of (suc fuel) n =
    let higher = digits_of fuel (n / 10) in
    if ltb n 10 then (48 + n) ∷ [] else higher ++ ((48 + n % 10) ∷ [])

unfoldable pub format_int : ℤ → Bytes
unfolding digits_of
format_int (pos n) = digits_of n n
format_int (negsuc n) = 45 ∷ digits_of (suc n) (suc n)

abbrev pub is_int64 : ℤ → Bool
is_int64 (pos n) = ltb n (2 ^ 63)
is_int64 (negsuc n) = ltb n (2 ^ 63)

abbrev within : Option ℤ → Option ℤ
within none = none
within (some z) = if is_int64 z then some z else none

unfoldable pub parse_int : Bytes → Option ℤ
parse_int cs = within (set_string cs)

abbrev pub AreDigits : Bytes → Type 0
AreDigits = All (λ c. (48 ≤ c) × (c ≤ 57))

append-AreDigits : (xs ys : Bytes) → AreDigits xs → AreDigits ys → AreDigits (xs ++ ys)
append-AreDigits [] ys dx dy = dy
append-AreDigits (x ∷ xs) ys (d, dx) dy = (d, append-AreDigits xs ys dx dy)

digits_of-AreDigits : (fuel n : ℕ) → n ≤ fuel → AreDigits (digits_of fuel n)
unfolding digits_of
digits_of-AreDigits zero n le = ((omega arith, omega arith), tt)
digits_of-AreDigits (suc fuel) n le = elim (Bool-cases (ltb n 10)) [
  | inl low ↦ rw low ((omega arith, ground arith), tt)
  | inr high ↦ rw high (
      append-AreDigits (digits_of fuel (n / 10)) ((48 + n % 10) ∷ [])
        (digits_of-AreDigits fuel (n / 10) (ground arith)) ((omega arith, omega arith), tt))
]

decimal-append :
    (acc a : ℕ) (xs ys : Bytes) → decimal acc xs ≡ some a → decimal acc (xs ++ ys) ≡ decimal a ys
unfolding decimal
decimal-append acc a [] ys e = let same : acc ≡ a = ground arith in rw same refl
decimal-append acc a (x ∷ xs) ys e = elim (Bool-cases (leb 48 x && leb x 57)) [
  | inl digit ↦ rw digit (decimal-append (acc * 10 + (x - 48)) a xs ys (rw digit at e))
  | inr other ↦ let impossible : none ≡ some a = rw other at e in ground arith
]

decimal-digits_of : (fuel n : ℕ) → n ≤ fuel → decimal 0 (digits_of fuel n) ≡ some n
unfolding digits_of decimal
decimal-digits_of zero n le = ground arith
decimal-digits_of (suc fuel) n le = elim (Bool-cases (ltb n 10)) [
  | inl low ↦
      let digit : leb 48 (48 + n) && leb (48 + n) 57 ≡ true = ground arith in
      let value : 0 * 10 + (48 + n - 48) ≡ n = omega arith in rw low (rw digit (rw value refl))
  | inr high ↦
      let d = 48 + n % 10 in
      let digit : leb 48 d && leb d 57 ≡ true = ground arith in
      let value : n / 10 * 10 + (d - 48) ≡ n = omega arith in
      rw high (
        decimal-append 0 (n / 10) (digits_of fuel (n / 10)) (d ∷ [])
          (decimal-digits_of fuel (n / 10) (ground arith))
        ∙ rw digit (rw value refl))
]

digits-digits_of : (xs : Bytes) (n : ℕ) → 0 < length xs → decimal 0 xs ≡ some n → digits xs ≡ some n
unfolding digits
digits-digits_of [] n some_left e = absurd (omega arith)
digits-digits_of (x ∷ xs) n some_left e = e

length-digits_of : (fuel n : ℕ) → 0 < length (digits_of fuel n)
unfolding digits_of
length-digits_of zero n = omega arith
length-digits_of (suc fuel) n = elim (Bool-cases (ltb n 10)) [
  | inl low ↦ rw low (omega arith)
  | inr high ↦
      let l = length-append (digits_of fuel (n / 10)) ((48 + n % 10) ∷ []) in rw high (omega arith)
]

set_string-digits :
    (xs : Bytes) (n : ℕ) → AreDigits xs → digits xs ≡ some n → set_string xs ≡ some (pos n)
unfolding set_string digits
set_string-digits [] n d e = ground arith
set_string-digits (x ∷ xs) n (d, ds) e =
    let plus : (x == 43) ≡ false = ground arith in
    let minus : (x == 45) ≡ false = ground arith in rw minus (rw plus (rw e refl))

pub set_string-format_int : (z : ℤ) → set_string (format_int z) ≡ some z
unfolding format_int set_string
set_string-format_int (pos n) =
    set_string-digits (digits_of n n) n (digits_of-AreDigits n n (omega arith)) (
      digits-digits_of (digits_of n n) n (length-digits_of n n)
        (decimal-digits_of n n (omega arith)))
set_string-format_int (negsuc n) =
    rw
      (digits-digits_of (digits_of (suc n) (suc n)) (suc n) (length-digits_of (suc n) (suc n))
        (decimal-digits_of (suc n) (suc n) (omega arith)))
      refl

-- An integer of 64 bits is read back from its decimal text.
pub parse_int-format_int : (z : ℤ) → is_int64 z ≡ true → parse_int (format_int z) ≡ some z
unfolding parse_int
parse_int-format_int z fits = rw (set_string-format_int z) (rw fits refl)

AreDigits-HasNoSeparator : (cs : Bytes) → AreDigits cs → HasNoSeparator 46 cs
AreDigits-HasNoSeparator [] d = tt
AreDigits-HasNoSeparator (c ∷ cs) (d, ds) = (ground arith, AreDigits-HasNoSeparator cs ds)

pub format_int-HasNoSeparator : (z : ℤ) → HasNoSeparator 46 (format_int z)
unfolding format_int
format_int-HasNoSeparator (pos n) =
    AreDigits-HasNoSeparator (digits_of n n) (digits_of-AreDigits n n (omega arith))
format_int-HasNoSeparator (negsuc n) = (
  ground arith,
  AreDigits-HasNoSeparator (digits_of (suc n) (suc n))
      (digits_of-AreDigits (suc n) (suc n) (omega arith)),
)

AreDigits-AreBytes : (cs : Bytes) → AreDigits cs → AreBytes cs
AreDigits-AreBytes [] d = tt
AreDigits-AreBytes (c ∷ cs) (d, ds) = (omega arith, AreDigits-AreBytes cs ds)

pub format_int-AreBytes : (z : ℤ) → AreBytes (format_int z)
unfolding format_int
format_int-AreBytes (pos n) =
    AreDigits-AreBytes (digits_of n n) (digits_of-AreDigits n n (omega arith))
format_int-AreBytes (negsuc n) = (
  omega arith,
  AreDigits-AreBytes (digits_of (suc n) (suc n))
      (digits_of-AreDigits (suc n) (suc n) (omega arith)),
)

pub format_int-AreDigits : (n : ℕ) → AreDigits (format_int (pos n))
unfolding format_int
format_int-AreDigits n = digits_of-AreDigits n n (omega arith)
