-- ===== src/Prelude/Indexed.antt =====
-- Slices as lists with native indices: reading, writing, exchanging, and how often a test holds.
use Prim.Native.Nat.{ℕ, zero, suc, ◌+◌, ◌<◌}
use mathlib.Core.Path.{◌≡◌, refl, sym, ap, ◌∙◌}
use mathlib.Core.Logic.{∥∥₁_elim}
use mathlib.Core.Bool.{Bool, true}
use mathlib.Core.Option.{Option, none, some}
use mathlib.Core.List.{List, [], ◌∷◌, ◌++◌, Permᴰ, Perm}
use mathlib.Core.List.Perm
use native.Mathlib.Nat.{ℕ_set}
use native.Mathlib.Omega.{arith}
use mx_sdk_erdgo.Prelude.Tests.{◌==◌, nat_eq, if◌then◌else◌}
use mx_sdk_erdgo.Prelude.Lists.{length}

module _ {ℓ} {A : Type ℓ} where
  -- xs[i], or none where Go panics.
  abbrev pub at : List A → ℕ → Option A
  at [] i = none
  at (x ∷ xs) zero = some x
  at (x ∷ xs) (suc i) = at xs i

  -- xs[i] = v
  abbrev pub write : List A → ℕ → A → List A
  write [] i v = []
  write (x ∷ xs) zero v = v ∷ xs
  write (x ∷ xs) (suc i) v = x ∷ write xs i v

  pub at-within : (xs : List A) (i : ℕ) → i < length xs → (x : A) × (at xs i ≡ some x)
  at-within [] i lt = absurd (omega arith)
  at-within (x ∷ xs) zero lt = (x, refl)
  at-within (x ∷ xs) (suc i) lt = at-within xs i (omega arith)

  pub at-append : (xs ys : List A) (i : ℕ) → i < length xs → at (xs ++ ys) i ≡ at xs i
  at-append [] ys i lt = absurd (omega arith)
  at-append (x ∷ xs) ys zero lt = refl
  at-append (x ∷ xs) ys (suc i) lt = at-append xs ys i (omega arith)

  pub at_last : (xs : List A) (x : A) → at (xs ++ (x ∷ [])) (length xs) ≡ some x
  at_last [] x = refl
  at_last (y ∷ xs) x = at_last xs x

  at-write :
      (xs : List A) (i c : ℕ) (v : A)
      → i < length xs
      → at (write xs i v) c ≡ (if i == c then some v else at xs c)
  at-write [] i c v lt = absurd (omega arith)
  at-write (x ∷ xs) zero zero v lt = refl
  at-write (x ∷ xs) zero (suc c) v lt = ground arith
  at-write (x ∷ xs) (suc i) zero v lt = ground arith
  at-write (x ∷ xs) (suc i) (suc c) v lt = ground (arith, at-write xs i c v)

  pub length-write : (xs : List A) (i : ℕ) (v : A) → length (write xs i v) ≡ length xs
  length-write [] i v = refl
  length-write (x ∷ xs) zero v = refl
  length-write (x ∷ xs) (suc i) v = ap suc (length-write xs i v)

  write-perm : (xs : List A) (i : ℕ) (x v : A) → at xs i ≡ some x → Perm (x ∷ write xs i v) (v ∷ xs)
  write-perm [] i x v e = ground arith
  write-perm (y ∷ xs) zero x v e = let same : y ≡ x = ground arith in rw same (Perm.swap v x xs)
  write-perm (y ∷ xs) (suc i) x v e =
      let below = Perm.cons y (write-perm xs i x v e) in
      Perm.trans (Perm.swap y x (write xs i v)) (Perm.trans below (Perm.swap v y xs))

  -- `ys` is `xs` with the entries at `i` and `j` exchanged.
  pub record Exchanged (i j : ℕ) (xs ys : List A) : Type ℓ where
    pub same : Perm ys xs
    pub entries :
        (c : ℕ) → at ys c ≡ (if j == c then at xs i else if i == c then at xs j else at xs c)

  pub write-Exchanged :
      (xs : List A) (i j : ℕ) (x y : A)
      → i < length xs
      → j < length xs
      → at xs i ≡ some x
      → at xs j ≡ some y
      → Exchanged i j xs (write (write xs i y) j x)
  write-Exchanged xs i j x y hi hj ei ej =
      let first = write xs i y in
      let l = length-write xs i y in
      let read = at-write xs i j y hi in
      let between : at first j ≡ some y = ground arith in
      record {
        same = Perm.cons_inv (Perm.trans (write-perm first j y x between) (write-perm xs i x y ei));
        entries = λ c.
            let second = at-write first j c x (omega arith) in
            let one = at-write xs i c y hi in ground arith;
      }

  -- How many items pass a test.
  abbrev pub amount : (A → Bool) → List A → ℕ
  amount test [] = 0
  amount test (x ∷ xs) = if test x then suc (amount test xs) else amount test xs

  pub amount-append :
      (test : A → Bool) (xs ys : List A) → amount test (xs ++ ys) ≡ amount test xs + amount test ys
  amount-append test [] ys = omega arith
  amount-append test (x ∷ xs) ys = ground (arith, amount-append test xs ys)

  amount-permuted :
      (test : A → Bool) {xs ys : List A} → Permᴰ xs ys → amount test xs ≡ amount test ys
  amount-permuted test Permᴰ.nil = refl
  amount-permuted test (Permᴰ.cons e p) =
      let rest = amount-permuted test p in let tests = ap test e in ground arith
  amount-permuted test (Permᴰ.swap e f) =
      let tests = ap test e in let tests' = ap test f in ground arith
  amount-permuted test (Permᴰ.trans p q) = amount-permuted test p ∙ amount-permuted test q

  pub amount-perm :
      (test : A → Bool) {xs ys : List A} → Perm xs ys → amount test xs ≡ amount test ys
  amount-perm test p = ∥∥₁_elim p (ℕ_set _ _) (amount-permuted test)

  amount_all : (xs : List A) → amount (λ x. true) xs ≡ length xs
  amount_all [] = refl
  amount_all (x ∷ xs) = ap suc (amount_all xs)

  pub length-perm : {xs ys : List A} → Perm xs ys → length xs ≡ length ys
  length-perm {xs = xs} {ys = ys} p =
      sym (amount_all xs) ∙ amount-perm (λ x. true) p ∙ amount_all ys
