-- ===== src/Aggregator/AnyOrder.antt =====
-- The price does not depend on the order in which the fetchers answer.
use mx_sdk_erdgo.Prelude.{
  ℕ, suc, ◌-◌, ◌/◌, ◌%◌, ◌≤◌, ◌<◌, ◌≡◌, refl, sym, ap, ◌∙◌, ◌⊎◌, inl, inr, true, false, Bool-cases,
  List, [], ◌∷◌, arith, at-within, length, length-perm, ltb, ◌==◌, nat_eq, if◌then◌else◌,
}
use mathlib.Core.List.{Permᴰ}
use mx_sdk_erdgo.Prelude.Exec.{Result, ok, err, plain, Error}
use mx_sdk_erdgo.Prelude.Success.{differ_err, ok-injective}
use mx_sdk_erdgo.Chain.{Bytes}
use mx_sdk_erdgo.Sorting.{sort_slice, insert_sorted, sort_slice-perm, IsLinear}
use mx_sdk_erdgo.Aggregator.{
  Float64, PriceFetcher, PriceAggregator, new_price_aggregator, to_upper, prices_of, with_price,
  middle_of, compute_median, fetch_price,
}

module _ {F : Type 0} where
  permuted_refl : (ps : List F) → Permᴰ ps ps
  permuted_refl [] = Permᴰ.nil
  permuted_refl (p ∷ ps) = Permᴰ.cons refl (permuted_refl ps)

  with_price-perm :
      (a b : F ⊎ Error) {ps qs : List F}
      → a ≡ b
      → Permᴰ ps qs
      → Permᴰ (with_price a ps) (with_price b qs)
  with_price-perm (inl p) b e perm = rw (sym e) (Permᴰ.cons refl perm)
  with_price-perm (inr x) b e perm = rw (sym e) perm

  with_price-swap :
      (a b : F ⊎ Error) (ps : List F)
      → Permᴰ (with_price a (with_price b ps)) (with_price b (with_price a ps))
  with_price-swap (inl p) (inl q) ps = Permᴰ.swap refl refl
  with_price-swap (inl p) (inr x) ps = permuted_refl _
  with_price-swap (inr x) (inl q) ps = permuted_refl _
  with_price-swap (inr x) (inr y) ps = permuted_refl _

  prices_of-perm :
      (base quote : Bytes) {xs ys : List (PriceFetcher F)}
      → Permᴰ xs ys
      → Permᴰ (prices_of base quote xs) (prices_of base quote ys)
  unfolding prices_of
  prices_of-perm base quote Permᴰ.nil = Permᴰ.nil
  prices_of-perm base quote {xs = x ∷ xs} {ys = y ∷ ys} (Permᴰ.cons e p) =
      with_price-perm (x.fetch_price base quote) (y.fetch_price base quote)
        (ap (λ z. z.fetch_price base quote) e) (prices_of-perm base quote p)
  prices_of-perm base quote {xs = x ∷ (y ∷ xs)} (Permᴰ.swap e f) = rw (sym e) (
      rw (sym f) (
        with_price-swap (x.fetch_price base quote) (y.fetch_price base quote)
          (prices_of base quote xs)))
  prices_of-perm base quote (Permᴰ.trans p q) =
      Permᴰ.trans (prices_of-perm base quote p) (prices_of-perm base quote q)

module _ {F : Type 0} (float : Float64 F) (order : IsLinear float.is_less) where
  -- The median is the same for any order of the numbers.
  compute_median-perm :
      (xs ys : List F) → Permᴰ xs ys → compute_median float xs ≡ compute_median float ys
  unfolding compute_median
  compute_median-perm xs ys p =
      rw (sort_slice-perm float.is_less order p) (rw (length-perm ∣ p ∣₁) refl)

  length-insert_sorted :
      (x : F) (xs : List F) → length (insert_sorted float.is_less x xs) ≡ suc (length xs)
  unfolding insert_sorted
  length-insert_sorted x [] = refl
  length-insert_sorted x (y ∷ xs) =
      let rest = length-insert_sorted x xs in
      elim (Bool-cases (float.is_less x y)) [
        | inl first ↦ rw first refl
        | inr behind ↦ rw behind (ap suc rest)
      ]

  length-sort_slice : (xs : List F) → length (sort_slice float.is_less xs) ≡ length xs
  unfolding sort_slice
  length-sort_slice [] = refl
  length-sort_slice (x ∷ xs) =
      length-insert_sorted x (sort_slice float.is_less xs) ∙ ap suc (length-sort_slice xs)

  -- Neither index is out of range.
  middle_of-ok : (xs : List F) → 0 < length xs → (price : F) × (middle_of float xs ≡ ok price)
  middle_of-ok xs some_there =
      let mid = length xs / 2 in
      let (high, there) = at-within xs mid (omega arith) in
      elim (Bool-cases (length xs % 2 == 1)) [
        | inl odd ↦ (high, rw odd (rw there refl))
        | inr even ↦
            let (low, there') = at-within xs (mid - 1) (omega arith) in
            (float.div (float.add low high) (float.of_nat 2), rw even (rw there' (rw there refl)))
      ]

  compute_median-ok :
      (xs : List F) → 0 < length xs → (price : F) × (compute_median float xs ≡ ok price)
  unfolding compute_median
  compute_median-ok xs some_there =
      let enough : ltb (length xs) 1 ≡ false = ground arith in
      let same = length-sort_slice xs in
      let (price, found) = middle_of-ok (sort_slice float.is_less xs) (rw same some_there) in
      (price, rw enough found)

  constructed :
      (fetchers : List (PriceFetcher F)) (number : ℕ) (pa : PriceAggregator F)
      → new_price_aggregator fetchers number ≡ ok pa
      → 0 < pa.min_results_num
  unfolding new_price_aggregator
  constructed fetchers number pa e = elim (Bool-cases (ltb number 1)) [
    | inl low ↦ differ_err _ _ (rw low at e)
    | inr high ↦ elim (Bool-cases (ltb (length fetchers) number)) [
      | inl few ↦ differ_err _ _ (rw (high, few) at e)
      | inr enough ↦
          let made =
            ok-injective record { price_fetchers = fetchers; min_results_num = number } pa
              (rw (high, enough) at e) in
          let same : number ≡ pa.min_results_num = ap (λ a. a.min_results_num) made in ground arith
    ]
  ]

  abbrev pub judged : ℕ → List F → Result F
  judged number prices =
      if ltb (length prices) number
      then err (plain "not enough responses to compute a valid price")
      else compute_median float prices

  judged-perm :
      (number : ℕ) (ps qs : List F)
      → 0 < number
      → Permᴰ ps qs
      → (judged number ps ≡ judged number qs)
        × (((number ≤ length qs) × ((price : F) × (judged number ps ≡ ok price)))
            ⊎ ((length qs < number)
                × (judged number ps ≡ err (plain "not enough responses to compute a valid price"))))
  judged-perm number ps qs positive p =
      let same : length ps ≡ length qs = length-perm ∣ p ∣₁ in
      elim (Bool-cases (ltb (length qs) number)) [
        | inl few ↦
            let few' : ltb (length ps) number ≡ true = rw same few in
            (rw (few, few') refl, inr (ground arith, rw few' refl))
        | inr enough ↦
            let enough' : ltb (length ps) number ≡ false = rw same enough in
            let (price, found) = compute_median-ok ps (ground arith) in
            (
              rw (enough, enough') (compute_median-perm ps qs p),
              inl (ground arith, (price, rw enough' found)),
            )
      ]

  -- Where the prices can be ordered, and the goroutines of a constructed aggregator end in any order,
  -- `FetchPrice` returns what it returns where they end in the order of the fetchers. It is a price if at
  -- least the least number of fetchers has one, and the error for too few responses otherwise.
  pub fetch_price_any_order :
      (fetchers ended : List (PriceFetcher F)) (number : ℕ) (pa : PriceAggregator F)
      (base quote : Bytes)
      → new_price_aggregator fetchers number ≡ ok pa
      → Permᴰ ended pa.price_fetchers
      → (fetch_price float pa ended base quote ≡ fetch_price float pa pa.price_fetchers base quote)
        × (((pa.min_results_num
                ≤ length (prices_of (to_upper base) (to_upper quote) pa.price_fetchers))
              × ((price : F) × (fetch_price float pa ended base quote ≡ ok price)))
            ⊎ ((length (prices_of (to_upper base) (to_upper quote) pa.price_fetchers)
                  < pa.min_results_num)
                × (fetch_price float pa ended base quote
                    ≡ err (plain "not enough responses to compute a valid price"))))
  unfolding fetch_price
  fetch_price_any_order fetchers ended number pa base quote e p =
      judged-perm pa.min_results_num (prices_of (to_upper base) (to_upper quote) ended)
        (prices_of (to_upper base) (to_upper quote) pa.price_fetchers)
        (constructed fetchers number pa e) (prices_of-perm (to_upper base) (to_upper quote) p)
