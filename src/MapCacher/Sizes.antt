-- ===== src/MapCacher/Sizes.antt =====
-- What `SizeInBytesContained` adds up.
use mx_sdk_erdgo.Prelude.{ℕ, ◌+◌, ◌<◌, ◌≤◌, ◌≡◌, List, [], ◌∷◌, some, arith, map}
use mx_sdk_erdgo.Dict.{values}
use mx_sdk_erdgo.MapCacher.{MapCacher, size_loop, size_in_bytes_contained}

abbrev pub sum : List ℕ → ℕ
sum [] = 0
sum (n ∷ ns) = n + sum ns

module _ {V : Type 0} (size : V → ℕ) where
  size_loop-bound :
      (vs : List V) (buffered total : ℕ)
      → total + sum (map size vs) ≤ size_loop (λ v. some (size v)) buffered total vs
  unfolding size_loop
  size_loop-bound [] buffered total = omega arith
  size_loop-bound (v ∷ vs) buffered total =
      let le = size_loop-bound vs (buffered + size v) (total + (buffered + size v)) in omega arith

  -- Where every value can be encoded and the first of two or more has a size above 0, the result is
  -- greater than the sum of the sizes: what one value has left in the buffer counts again for each
  -- value behind it.
  size_in_bytes_contained-exceeds :
      {H : Type 0} (mc : MapCacher V H) (v w : V) (vs : List V)
      → values mc.data_map ≡ v ∷ (w ∷ vs)
      → 0 < size v
      → sum (map size (values mc.data_map)) < size_in_bytes_contained (λ x. some (size x)) mc
  unfolding size_in_bytes_contained size_loop
  size_in_bytes_contained-exceeds mc v w vs e positive =
      let a = size v in
      let b = size w in
      let le = size_loop-bound vs (0 + a + b) (0 + (0 + a) + (0 + a + b)) in rw e (omega arith)
