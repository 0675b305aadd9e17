-- ===== src/Text/Ascii.antt =====
-- Texts that are written out in the code, or that are ASCII by their kind (addresses in bech32, numbers,
-- hashes in hexadecimal), as bytes.
use mx_sdk_erdgo.Prelude.{ℕ, ◌≡◌, ◌<◌, refl, String, [], ◌∷◌, All, arith}
use Prim.Native.Nat.{Ordering, compare}
use Prim.Native.Char.{Char, char, code, nul}
use mx_sdk_erdgo.Chain.{Bytes}

-- One byte for each character.
abbrev pub codes : String → Bytes
codes String.[] = []
codes (String.◌∷◌ c s) = code c ∷ codes s

abbrev letter_by : (n : ℕ) (o : Ordering) → compare n 55296 ≡ o → Char
letter_by n Ordering.lt e = char n (rw e tt)
letter_by n Ordering.eq e = nul
letter_by n Ordering.gt e = nul

abbrev pub letter : ℕ → Char
letter n = letter_by n (compare n 55296) refl

-- The text of ASCII bytes.
abbrev pub ascii_text : Bytes → String
ascii_text [] = String.[]
ascii_text (b ∷ bytes) = String.◌∷◌ (letter b) (ascii_text bytes)

code-letter_by :
    (n : ℕ) (o : Ordering) (e : compare n 55296 ≡ o) → n < 55296 → code (letter_by n o e) ≡ n
code-letter_by n Ordering.lt e lt = refl
code-letter_by n Ordering.eq e lt = ground arith
code-letter_by n Ordering.gt e lt = ground arith

pub codes-ascii_text : (bytes : Bytes) → All (λ b. b < 256) bytes → codes (ascii_text bytes) ≡ bytes
codes-ascii_text [] small = refl
codes-ascii_text (b ∷ bytes) (lt, small) =
    cc (code-letter_by b (compare b 55296) refl (omega arith), codes-ascii_text bytes small)
