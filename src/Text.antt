-- ===== src/Text.antt =====
-- Texts as their bytes, and the functions of Go's packages strings, encoding/hex, encoding/base64 and
-- strconv that the code uses, as far as it uses them.
pub mod Hex
pub mod Base64
pub mod Decimal
pub mod Space
pub mod Ascii
use mx_sdk_erdgo.Prelude.{
  ℕ, ◌≡◌, ◌≢◌, refl, false, List, [], ◌∷◌, ◌++◌, arith, map, All, ◌==◌, nat_eq, if◌then◌else◌,
}
use mx_sdk_erdgo.Chain.{Bytes}

module _ (separator : ℕ) where
  -- `strings.Join`, for a separator of one byte.
  unfoldable pub join : List Bytes → Bytes
  join [] = []
  join (p ∷ []) = p
  join (p ∷ (q ∷ ps)) = p ++ (separator ∷ join (q ∷ ps))

  abbrev pub cons_head : ℕ → List Bytes → List Bytes
  cons_head c [] = (c ∷ []) ∷ []
  cons_head c (p ∷ ps) = (c ∷ p) ∷ ps

  -- `strings.Split`
  unfoldable pub split : Bytes → List Bytes
  split [] = [] ∷ []
  split (c ∷ cs) = let rest = split cs in if c == separator then [] ∷ rest else cons_head c rest

  abbrev pub HasNoSeparator : Bytes → Type 0
  HasNoSeparator [] = Unit
  HasNoSeparator (c ∷ cs) = (c ≢ separator) × HasNoSeparator cs

  pub append-HasNoSeparator :
      (p q : Bytes) → HasNoSeparator p → HasNoSeparator q → HasNoSeparator (p ++ q)
  append-HasNoSeparator [] q none none' = none'
  append-HasNoSeparator (c ∷ p) q (differs, none) none' =
      (differs, append-HasNoSeparator p q none none')

  split-append : (p r : Bytes) → HasNoSeparator p → split (p ++ (separator ∷ r)) ≡ p ∷ split r
  unfolding split
  split-append [] r none = let same = nat_eq.same_iff separator separator in ground arith
  split-append (c ∷ cs) r (differs, none) =
      let other : (c == separator) ≡ false = ground arith in
      rw (split-append cs r none) (rw other refl)

  pub split-part : (p : Bytes) → HasNoSeparator p → split p ≡ p ∷ []
  unfolding split
  split-part [] none = refl
  split-part (c ∷ cs) (differs, none) =
      let other : (c == separator) ≡ false = ground arith in rw (split-part cs none) (rw other refl)

  pub split-join :
      (p : Bytes) (ps : List Bytes)
      → HasNoSeparator p
      → All HasNoSeparator ps
      → split (join (p ∷ ps)) ≡ p ∷ ps
  unfolding join
  split-join p [] none nones = split-part p none
  split-join p (q ∷ ps) none (none', nones) =
      rw (split-append p (join (q ∷ ps)) none) (rw (split-join q ps none' nones) refl)

-- `strings.ReplaceAll` of one byte by another.
abbrev pub replace_all : ℕ → ℕ → Bytes → Bytes
replace_all old new = map (λ c. if c == old then new else c)

-- `strings.TrimRight` of one byte.
abbrev pub trim_right : ℕ → Bytes → Bytes
trim_right cut [] = []
trim_right cut (c ∷ cs) = keep (trim_right cut cs)
  where
    keep : Bytes → Bytes
    keep [] = if c == cut then [] else c ∷ []
    keep (d ∷ ds) = c ∷ d ∷ ds

pub trim_right-part : (cut : ℕ) (cs : Bytes) → HasNoSeparator cut cs → trim_right cut cs ≡ cs
trim_right-part cut [] none = refl
trim_right-part cut (c ∷ []) (differs, none) =
    let other : (c == cut) ≡ false = ground arith in rw other refl
trim_right-part cut (c ∷ d ∷ cs) (differs, none) = rw (trim_right-part cut (d ∷ cs) none) refl

-- A text with something behind a part is not empty.
pub append_filled : (p : Bytes) (c : ℕ) (q : Bytes) → p ++ (c ∷ q) ≢ []
append_filled [] c q = λ e. ground arith
append_filled (d ∷ p) c q = λ e. ground arith
