-- ===== src/BigInt.antt =====
-- math/big as the library uses it: integers of any size, compared, and read from decimal text.
use mx_sdk_erdgo.Prelude.{
  ℕ, zero, suc, ◌+◌, ◌-◌, ◌*◌, Bool, true, false, ◌&&◌, Option, none, some, List, [], ◌∷◌, ltb, leb,
  ◌==◌, nat_eq, if◌then◌else◌, ◌≡◌, ◌↔◌, nat_beq, Comparable, arith,
}

-- `negsuc n` is -(n + 1).
pub data ℤ : Type 0 where
  pos negsuc : ℕ → ℤ

-- `a.Cmp(b) < 0`
abbrev pub is_less : ℤ → ℤ → Bool
is_less (pos m) (pos n) = ltb m n
is_less (pos m) (negsuc n) = false
is_less (negsuc m) (pos n) = true
is_less (negsuc m) (negsuc n) = ltb n m

abbrev pub same_integer : ℤ → ℤ → Bool
same_integer (pos m) (pos n) = nat_beq m n
same_integer (pos m) (negsuc n) = false
same_integer (negsuc m) (pos n) = false
same_integer (negsuc m) (negsuc n) = nat_beq m n

pub same_integer_iff : (a b : ℤ) → (same_integer a b ≡ true) ↔ (a ≡ b)
same_integer_iff (pos m) (pos n) = ground arith
same_integer_iff (pos m) (negsuc n) = ground arith
same_integer_iff (negsuc m) (pos n) = ground arith
same_integer_iff (negsuc m) (negsuc n) = ground arith

instance abbrev pub int_eq : Comparable ℤ
int_eq = record { same = same_integer; same_iff = same_integer_iff }

-- Digits behind the value of those before them.
unfoldable pub decimal : ℕ → List ℕ → Option ℕ
decimal acc [] = some acc
decimal acc (c ∷ cs) = if leb 48 c && leb c 57 then decimal (acc * 10 + (c - 48)) cs else none

-- A number has at least one digit.
unfoldable pub digits : List ℕ → Option ℕ
unfolding decimal
digits [] = none
digits (c ∷ cs) = decimal 0 (c ∷ cs)

abbrev pub signed : Bool → Option ℕ → Option ℤ
signed negative none = none
signed true (some zero) = some (pos zero)
signed true (some (suc n)) = some (negsuc n)
signed false (some n) = some (pos n)

-- `SetString(s, 10)` on the bytes of the text: an optional sign and digits, up to the end.
unfoldable pub set_string : List ℕ → Option ℤ
unfolding digits
set_string [] = none
set_string (c ∷ cs) =
    if c == 45
    then signed true (digits cs)
    else if c == 43
    then signed false (digits cs)
    else signed false (digits (c ∷ cs))
