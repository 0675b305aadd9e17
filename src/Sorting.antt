-- ===== src/Sorting.antt =====
-- `sort.Slice` of Go's library, on values that the order tells apart: its result is the same whatever
-- way it sorts in, so here it inserts them one by one.
use mx_sdk_erdgo.Prelude.{◌≡◌, refl, ◌∙◌, Bool, true, false, List, [], ◌∷◌, arith, if◌then◌else◌}
use mathlib.Core.List.{Permᴰ}

module _ {A : Type 0} (is_before : A → A → Bool) where
  unfoldable pub insert_sorted : A → List A → List A
  insert_sorted a [] = a ∷ []
  insert_sorted a (b ∷ bs) =
      let rest = insert_sorted a bs in if is_before a b then a ∷ (b ∷ bs) else b ∷ rest

  unfoldable pub sort_slice : List A → List A
  unfolding insert_sorted
  sort_slice [] = []
  sort_slice (a ∷ xs) = insert_sorted a (sort_slice xs)

  -- A strict order in which any two values are ordered or the same.
  pub record IsLinear : Type 0 where
    pub asym : (a b : A) → is_before a b ≡ true → is_before b a ≡ false
    pub trans : (a b c : A) → is_before a b ≡ true → is_before b c ≡ true → is_before a c ≡ true
    pub connex : (a b : A) → is_before a b ≡ false → is_before b a ≡ false → a ≡ b

  -- Every item is before the next one.
  abbrev pub IsAscending : List A → Type 0
  IsAscending [] = Unit
  IsAscending (a ∷ []) = Unit
  IsAscending (a ∷ (b ∷ xs)) = (is_before a b ≡ true) × IsAscending (b ∷ xs)

  pub sort_slice_ascending : (xs : List A) → IsAscending xs → sort_slice xs ≡ xs
  unfolding sort_slice insert_sorted
  sort_slice_ascending [] up = refl
  sort_slice_ascending (a ∷ []) up = refl
  sort_slice_ascending (a ∷ (b ∷ xs)) (first, up) =
      rw (sort_slice_ascending (b ∷ xs) up) (rw first refl)

  module _ (order : IsLinear) where
    insert_sorted_comm :
        (a b : A) (xs : List A)
        → insert_sorted a (insert_sorted b xs) ≡ insert_sorted b (insert_sorted a xs)
    unfolding insert_sorted
    insert_sorted_comm a b [] = ground (arith, order.asym a b, order.asym b a, order.connex a b)
    insert_sorted_comm a b (c ∷ xs) = ground (
      arith,
      insert_sorted_comm a b xs,
      order.asym a b,
      order.asym b a,
      order.connex a b,
      order.trans a b c,
      order.trans b a c,
    )

    pub sort_slice-perm : {xs ys : List A} → Permᴰ xs ys → sort_slice xs ≡ sort_slice ys
    unfolding sort_slice
    sort_slice-perm Permᴰ.nil = refl
    sort_slice-perm (Permᴰ.cons e p) = cc (e, sort_slice-perm p)
    sort_slice-perm {xs = a ∷ b ∷ xs} (Permᴰ.swap e f) =
        insert_sorted_comm a b (sort_slice xs) ∙ cc (e, f)
    sort_slice-perm (Permᴰ.trans p q) = sort_slice-perm p ∙ sort_slice-perm q
