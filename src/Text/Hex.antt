-- ===== src/Text/Hex.antt =====
-- encoding/hex.
use mx_sdk_erdgo.Prelude.{
  ℕ, ◌+◌, ◌-◌, ◌*◌, ◌/◌, ◌%◌, ◌<◌, ◌≡◌, ◌≢◌, refl, Bool, true, false, ◌&&◌, ◌||◌, Option, none,
  some, [], ◌∷◌, ◌++◌, arith, All, ◌⊎◌, ltb, leb, nat_eq, if◌then◌else◌,
}
use mx_sdk_erdgo.Chain.{Bytes}
use mx_sdk_erdgo.Text.{HasNoSeparator}

abbrev pub hex_digit : ℕ → ℕ
hex_digit n = if ltb n 10 then 48 + n else 87 + n

-- `EncodeToString`, and `%x` of fmt.
abbrev pub encode_to_string : Bytes → Bytes
encode_to_string [] = []
encode_to_string (b ∷ bs) = hex_digit (b / 16) ∷ (hex_digit (b % 16) ∷ encode_to_string bs)

abbrev pub is_hex_digit : ℕ → Bool
is_hex_digit c = (leb 48 c && leb c 57) || ((leb 97 c && leb c 102) || (leb 65 c && leb c 70))

-- Whether `DecodeString` succeeds: an even number of digits.
abbrev pub is_hex : Bytes → Bool
is_hex [] = true
is_hex (c ∷ []) = false
is_hex (c ∷ (d ∷ cs)) = is_hex_digit c && (is_hex_digit d && is_hex cs)

abbrev pub hex_value : ℕ → ℕ
hex_value c = if leb c 57 then c - 48 else if leb 97 c then c - 87 else c - 55

abbrev pub hex_values : Bytes → Bytes
hex_values [] = []
hex_values (c ∷ []) = []
hex_values (c ∷ (d ∷ cs)) = (hex_value c * 16 + hex_value d) ∷ hex_values cs

-- `DecodeString`
unfoldable pub decode_string : Bytes → Option Bytes
decode_string cs = if is_hex cs then some (hex_values cs) else none

abbrev pub AreBytes : Bytes → Type 0
AreBytes = All (λ b. b < 256)

hex_digit-is_hex_digit : (n : ℕ) → n < 16 → is_hex_digit (hex_digit n) ≡ true
hex_digit-is_hex_digit n lt = ground arith

hex_value-hex_digit : (n : ℕ) → n < 16 → hex_value (hex_digit n) ≡ n
hex_value-hex_digit n lt = ground arith

is_hex-encode : (bs : Bytes) → AreBytes bs → is_hex (encode_to_string bs) ≡ true
is_hex-encode [] all = refl
is_hex-encode (b ∷ bs) (lt, all) =
    rw (hex_digit-is_hex_digit (b / 16) (omega arith))
      (rw (hex_digit-is_hex_digit (b % 16) (omega arith)) (is_hex-encode bs all))

hex_values-encode : (bs : Bytes) → AreBytes bs → hex_values (encode_to_string bs) ≡ bs
hex_values-encode [] all = refl
hex_values-encode (b ∷ bs) (lt, all) =
    let whole : b / 16 * 16 + b % 16 ≡ b = omega arith in
    rw (hex_value-hex_digit (b / 16) (omega arith)) (
      rw (hex_value-hex_digit (b % 16) (omega arith))
        (rw whole (rw (hex_values-encode bs all) refl)))

pub decode_string-encode_to_string :
    (bs : Bytes) → AreBytes bs → decode_string (encode_to_string bs) ≡ some bs
unfolding decode_string
decode_string-encode_to_string bs all =
    rw (is_hex-encode bs all) (rw (hex_values-encode bs all) refl)

-- A byte that separates texts and is no digit and no letter.
abbrev pub IsPunctuation : ℕ → Type 0
IsPunctuation s = s < 48 ⊎ ((57 < s) × (s < 65))

module _ (separator : ℕ) (punctuation : IsPunctuation separator) where
  hex_digit-differs : (n : ℕ) → hex_digit n ≢ separator
  hex_digit-differs n = ground arith

  pub encode_to_string-HasNoSeparator :
      (bs : Bytes) → HasNoSeparator separator (encode_to_string bs)
  encode_to_string-HasNoSeparator [] = tt
  encode_to_string-HasNoSeparator (b ∷ bs) =
      (hex_digit-differs (b / 16), (hex_digit-differs (b % 16), encode_to_string-HasNoSeparator bs))

  is_hex_digit-differs : (c : ℕ) → is_hex_digit c ≡ true → c ≢ separator
  is_hex_digit-differs c digit = ground arith

  pub is_hex-HasNoSeparator : (cs : Bytes) → is_hex cs ≡ true → HasNoSeparator separator cs
  is_hex-HasNoSeparator [] hexed = tt
  is_hex-HasNoSeparator (c ∷ []) hexed = ground arith
  is_hex-HasNoSeparator (c ∷ (d ∷ cs)) hexed = (
    is_hex_digit-differs c (ground arith),
    (is_hex_digit-differs d (ground arith), is_hex-HasNoSeparator cs (ground arith)),
  )

pub append-AreBytes : (xs ys : Bytes) → AreBytes xs → AreBytes ys → AreBytes (xs ++ ys)
append-AreBytes [] ys bx by_ = by_
append-AreBytes (x ∷ xs) ys (b, bx) by_ = (b, append-AreBytes xs ys bx by_)
