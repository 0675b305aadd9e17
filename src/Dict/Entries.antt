-- ===== src/Dict/Entries.antt =====
-- How the entries of a dictionary change, counted by any test.
use mx_sdk_erdgo.Prelude.{
  ◌+◌, ◌≡◌, refl, Bool, Bool-cases, inl, inr, none, some, [], ◌∷◌, arith, amount, Comparable, ◌==◌,
  if◌then◌else◌,
}
use mx_sdk_erdgo.Dict.{Dict, lookup, insert, delete, HasUniqueKeys}

module _ {K V : Type 0} ⦃e : Comparable K⦄ where
  pub amount-insert :
      (test : K × V → Bool) (m : Dict K V) (k : K) (v : V)
      → lookup m k ≡ none
      → amount test (insert m k v) ≡ amount test m + (if test (k, v) then 1 else 0)
  unfolding lookup insert
  amount-insert test [] k v absent = ground arith
  amount-insert test ((j, w) ∷ m) k v absent = elim (Bool-cases (j == k)) [
    | inl found ↦ let impossible : some w ≡ none = rw found at absent in ground arith
    | inr other ↦
        let below = amount-insert test m k v (rw other at absent) in rw other (ground arith)
  ]

  amount-without :
      (test : K × V → Bool) (m : Dict K V) (k : K)
      → lookup m k ≡ none
      → amount test (delete m k) ≡ amount test m
  unfolding lookup delete
  amount-without test [] k absent = refl
  amount-without test ((j, w) ∷ m) k absent = elim (Bool-cases (j == k)) [
    | inl found ↦ let impossible : some w ≡ none = rw found at absent in ground arith
    | inr other ↦
        let below = amount-without test m k (rw other at absent) in rw other (ground arith)
  ]

  pub amount-delete :
      (test : K × V → Bool) (m : Dict K V) (k : K) (v : V)
      → HasUniqueKeys m
      → lookup m k ≡ some v
      → amount test m ≡ amount test (delete m k) + (if test (k, v) then 1 else 0)
  unfolding lookup delete
  amount-delete test [] k v unique present = ground arith
  amount-delete test ((j, w) ∷ m) k v (single, unique) present = elim (Bool-cases (j == k)) [
    | inl found ↦
        let same : j ≡ k = (e.same_iff j k).0 found in
        let value : some w ≡ some v = rw found at present in
        let rest = amount-without test m k (rw same at single) in
        let entry : test (j, w) ≡ test (k, v) = ground arith in rw found (ground arith)
    | inr other ↦
        let below = amount-delete test m k v unique (rw other at present) in rw other (ground arith)
  ]

  pub lookup-amount : (m : Dict K V) (k : K) → lookup m k ≡ none → amount (λ (j, w). j == k) m ≡ 0
  unfolding lookup
  lookup-amount [] k absent = refl
  lookup-amount ((j, w) ∷ m) k absent = elim (Bool-cases (j == k)) [
    | inl found ↦ let impossible : some w ≡ none = rw found at absent in ground arith
    | inr other ↦ rw other (lookup-amount m k (rw other at absent))
  ]
