-- ===== src/Dict.antt =====
-- Go's `map` as an association list with at most one entry for each key. A `range` loop visits
-- the entries in the order of the list; the statements hold for a list in any order.
pub mod Entries
use mx_sdk_erdgo.Prelude.{
  ◌≡◌, refl, Option, none, some, List, [], ◌∷◌, arith, Comparable, ◌==◌, if◌then◌else◌,
}

abbrev pub Dict : Type 0 → Type 0 → Type 0
Dict K V = List (K × V)

abbrev pub overwritten : {V : Type 0} → V → Option V → Option V
overwritten v none = none
overwritten v (some w) = some v

module _ {K V : Type 0} ⦃e : Comparable K⦄ where
  -- m[k]
  unfoldable pub lookup : Dict K V → K → Option V
  lookup [] k = none
  lookup ((j, v) ∷ m) k = if j == k then some v else lookup m k

  -- delete(m, k)
  unfoldable pub delete : Dict K V → K → Dict K V
  delete [] k = []
  delete ((j, v) ∷ m) k = let rest = delete m k in if j == k then rest else (j, v) ∷ rest

  -- m[k] = v
  unfoldable pub insert : Dict K V → K → V → Dict K V
  insert [] k v = (k, v) ∷ []
  insert ((j, w) ∷ m) k v = let rest = insert m k v in if j == k then (k, v) ∷ m else (j, w) ∷ rest

  -- `*m[k] = v`, where the values are pointers: nothing, if there is no entry.
  unfoldable pub overwrite : Dict K V → K → V → Dict K V
  overwrite [] k v = []
  overwrite ((j, w) ∷ m) k v =
      let rest = overwrite m k v in if j == k then (j, v) ∷ rest else (j, w) ∷ rest

  pub lookup-overwrite :
      (m : Dict K V) (k j : K) (v : V)
      → lookup (overwrite m k v) j ≡ (if k == j then overwritten v (lookup m j) else lookup m j)
  unfolding lookup overwrite
  lookup-overwrite [] k j v = ground arith
  lookup-overwrite ((i, w) ∷ m) k j v =
      ground (arith, lookup-overwrite m k j v, e.same_iff i k, e.same_iff i j, e.same_iff k j)

  pub lookup-delete :
      (m : Dict K V) (k j : K) → lookup (delete m k) j ≡ (if k == j then none else lookup m j)
  unfolding lookup delete
  lookup-delete [] k j = ground arith
  lookup-delete ((i, v) ∷ m) k j =
      ground (arith, lookup-delete m k j, e.same_iff i k, e.same_iff i j, e.same_iff k j)

  pub lookup-insert :
      (m : Dict K V) (k j : K) (v : V)
      → lookup (insert m k v) j ≡ (if k == j then some v else lookup m j)
  unfolding lookup insert
  lookup-insert [] k j v = refl
  lookup-insert ((i, w) ∷ m) k j v =
      ground (arith, lookup-insert m k j v, e.same_iff i k, e.same_iff i j, e.same_iff k j)

  -- No key has two entries.
  abbrev pub HasUniqueKeys : Dict K V → Type 0
  HasUniqueKeys [] = Unit
  HasUniqueKeys ((k, v) ∷ m) = (lookup m k ≡ none) × HasUniqueKeys m

  pub insert-HasUniqueKeys :
      (m : Dict K V) (k : K) (v : V) → HasUniqueKeys m → HasUniqueKeys (insert m k v)
  unfolding insert lookup
  insert-HasUniqueKeys [] k v u = ground arith
  insert-HasUniqueKeys ((j, w) ∷ m) k v u =
      ground
        (arith, insert-HasUniqueKeys m k v, lookup-insert m k j v, e.same_iff j k, e.same_iff k j)

  pub delete-HasUniqueKeys : (m : Dict K V) (k : K) → HasUniqueKeys m → HasUniqueKeys (delete m k)
  unfolding delete lookup
  delete-HasUniqueKeys [] k u = tt
  delete-HasUniqueKeys ((j, w) ∷ m) k u =
      ground (arith, delete-HasUniqueKeys m k, lookup-delete m k j)

-- The values, in the order of a `range` loop.
abbrev pub values : {K V : Type 0} → Dict K V → List V
values [] = []
values ((k, v) ∷ m) = v ∷ values m
