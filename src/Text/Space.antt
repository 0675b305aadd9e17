-- ===== src/Text/Space.antt =====
-- `strings.TrimSpace`, for texts of ASCII.
use mx_sdk_erdgo.Prelude.{
  ℕ, ◌≡◌, refl, Bool, false, ◌||◌, ◌&&◌, [], ◌∷◌, arith, leb, ◌==◌, nat_eq, if◌then◌else◌,
}
use mx_sdk_erdgo.Chain.{Bytes}
use mx_sdk_erdgo.Text.Decimal.{AreDigits}

-- Tab, line feed, vertical tab, form feed, carriage return and space.
abbrev pub is_space : ℕ → Bool
is_space c = (leb 9 c && leb c 13) || (c == 32)

abbrev pub trim_left_space : Bytes → Bytes
trim_left_space [] = []
trim_left_space (c ∷ cs) = let rest = trim_left_space cs in if is_space c then rest else c ∷ cs

abbrev pub trim_right_space : Bytes → Bytes
trim_right_space [] = []
trim_right_space (c ∷ cs) = keep (trim_right_space cs)
  where
    keep : Bytes → Bytes
    keep [] = if is_space c then [] else c ∷ []
    keep (d ∷ ds) = c ∷ d ∷ ds

unfoldable pub trim_space : Bytes → Bytes
trim_space cs = trim_right_space (trim_left_space cs)

trim_left_space-digits : (cs : Bytes) → AreDigits cs → trim_left_space cs ≡ cs
trim_left_space-digits [] d = refl
trim_left_space-digits (c ∷ cs) ((low, high), d) =
    let other : is_space c ≡ false = ground arith in rw other refl

trim_right_space-digits : (cs : Bytes) → AreDigits cs → trim_right_space cs ≡ cs
trim_right_space-digits [] d = refl
trim_right_space-digits (c ∷ []) ((low, high), d) =
    let other : is_space c ≡ false = ground arith in rw other refl
trim_right_space-digits (c ∷ d ∷ cs) (_, ds) = rw (trim_right_space-digits (d ∷ cs) ds) refl

-- A number is kept.
pub trim_space-digits : (cs : Bytes) → AreDigits cs → trim_space cs ≡ cs
unfolding trim_space
trim_space-digits cs d = rw (trim_left_space-digits cs d) (trim_right_space-digits cs d)

pub trim_space-after : (cs : Bytes) → AreDigits cs → trim_space (32 ∷ cs) ≡ cs
unfolding trim_space
trim_space-after cs d = rw (trim_left_space-digits cs d) (trim_right_space-digits cs d)
