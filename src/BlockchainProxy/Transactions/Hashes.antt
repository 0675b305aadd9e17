-- ===== src/BlockchainProxy/Transactions/Hashes.antt =====
-- The hashes that `SendTransactions` returns, in the order of the transactions.
use mx_sdk_erdgo.Prelude.{
  ◌≡◌, refl, sym, ap, ◌∙◌, String, true, false, Bool-cases, Option, none, some, inl, inr, List, [],
  ◌∷◌, map, arith, ◌==◌,
}
use mathlib.Core.Logic.{∥∥₁_elim}
use mathlib.Core.List.{Permᴰ, Perm}
use text.Mathlib.TextEquality.{IsScalar-prop}
use mx_sdk_erdgo.Prelude.Exec.{Result, ok}
use mx_sdk_erdgo.Dict.{Dict, lookup, HasUniqueKeys}
use mx_sdk_erdgo.Chain.{Bytes, FrontendTransaction}
use mx_sdk_erdgo.BigInt.{ℤ, pos, negsuc, is_less, int_eq}
use mx_sdk_erdgo.Sorting.{sort_slice, sort_slice-perm, sort_slice_ascending, IsLinear, IsAscending}
use mx_sdk_erdgo.BaseProxy.{body_of}
use mx_sdk_erdgo.Endpoints.{send_multiple_transactions}
use mx_sdk_erdgo.BlockchainProxy.{BlockchainProxy, Reply, post, post_json}
use mx_sdk_erdgo.BlockchainProxy.Transactions.{
  or_empty, indexes, post_process_send_multiple_txs_result, send_transactions,
}

is_less-asym : (a b : ℤ) → is_less a b ≡ true → is_less b a ≡ false
is_less-asym (pos m) (pos n) e = ground arith
is_less-asym (pos m) (negsuc n) e = ground arith
is_less-asym (negsuc m) (pos n) e = refl
is_less-asym (negsuc m) (negsuc n) e = ground arith

is_less_trans : (a b c : ℤ) → is_less a b ≡ true → is_less b c ≡ true → is_less a c ≡ true
is_less_trans (pos m) (pos n) (pos k) e f = ground arith
is_less_trans (pos m) (negsuc n) c e f = ground arith
is_less_trans (pos m) (pos n) (negsuc k) e f = ground arith
is_less_trans (negsuc m) b (pos k) e f = refl
is_less_trans (negsuc m) (pos n) (negsuc k) e f = ground arith
is_less_trans (negsuc m) (negsuc n) (negsuc k) e f = ground arith

is_less_connex : (a b : ℤ) → is_less a b ≡ false → is_less b a ≡ false → a ≡ b
is_less_connex (pos m) (pos n) e f = ground arith
is_less_connex (pos m) (negsuc n) e f = ground arith
is_less_connex (negsuc m) (pos n) e f = ground arith
is_less_connex (negsuc m) (negsuc n) e f = ground arith

is_less-IsLinear : IsLinear is_less
is_less-IsLinear = record { asym = is_less-asym; trans = is_less_trans; connex = is_less_connex }

strings_set : (a b : List String) (p q : a ≡ b) → p ≡ q
strings_set = hlevel (IsScalar-prop)

-- The value that the key has in a list with ascending keys stays with it where the list is permuted.
indexes-perm : {m n : Dict ℤ String} → Permᴰ m n → Permᴰ (indexes m) (indexes n)
indexes-perm Permᴰ.nil = Permᴰ.nil
indexes-perm (Permᴰ.cons e p) = Permᴰ.cons (ap (λ x. x.0) e) (indexes-perm p)
indexes-perm (Permᴰ.swap e f) = Permᴰ.swap (ap (λ x. x.0) e) (ap (λ x. x.0) f)
indexes-perm (Permᴰ.trans p q) = Permᴰ.trans (indexes-perm p) (indexes-perm q)

other_way : (i j : ℤ) → (j == i) ≡ false → (i == j) ≡ false
other_way i j e = ground (arith, int_eq.same_iff i j, int_eq.same_iff j i)

differs : (k j : ℤ) → is_less k j ≡ true → (j == k) ≡ false
differs k j e = elim (Bool-cases (j == k)) [
  | inr other ↦ other
  | inl found ↦
      let same : j ≡ k = (int_eq.same_iff j k).0 found in
      let first : is_less k k ≡ true = rw same at e in
      let second = is_less-asym k k first in ground arith
]

lookup-below : (k : ℤ) (m : Dict ℤ String) → IsAscending is_less (k ∷ indexes m) → lookup m k ≡ none
unfolding lookup
lookup-below k [] up = refl
lookup-below k ((j, v) ∷ []) (e, up) = rw (differs k j e) refl
lookup-below k ((j, v) ∷ ((i, w) ∷ m)) (e, (f, up)) =
    rw (differs k j e) (lookup-below k ((i, w) ∷ m) (is_less_trans k j i e f, up))

ascending-HasUniqueKeys : (m : Dict ℤ String) → IsAscending is_less (indexes m) → HasUniqueKeys m
ascending-HasUniqueKeys [] up = tt
ascending-HasUniqueKeys ((k, v) ∷ []) up = (lookup-below k [] tt, tt)
ascending-HasUniqueKeys ((k, v) ∷ ((j, w) ∷ m)) up =
    (lookup-below k ((j, w) ∷ m) up, ascending-HasUniqueKeys ((j, w) ∷ m) up.1)

lookup-swap :
    (a b : ℤ × String) (m : Dict ℤ String)
    → HasUniqueKeys (a ∷ (b ∷ m))
    → HasUniqueKeys (b ∷ (a ∷ m)) × ((k : ℤ) → lookup (b ∷ (a ∷ m)) k ≡ lookup (a ∷ (b ∷ m)) k)
unfolding lookup
lookup-swap (i, v) (j, w) m (single, (single', unique)) = elim (Bool-cases (j == i)) [
  | inl found ↦ let impossible : some w ≡ none = rw found at single in ground arith
  | inr other ↦
      let apart = other_way i j other in
      let absent : lookup m i ≡ none = rw other at single in
      (
        (rw apart single', (absent, unique)),
        λ k. ground (arith, int_eq.same_iff j k, int_eq.same_iff i k, int_eq.same_iff j i),
      )
]

-- The map holds at a key what the list, with its single keys, does.
lookup-perm :
    {m n : Dict ℤ String}
    → Permᴰ m n
    → HasUniqueKeys m
    → HasUniqueKeys n × ((k : ℤ) → lookup n k ≡ lookup m k)
unfolding lookup
lookup-perm Permᴰ.nil unique = (tt, λ k. refl)
lookup-perm {m = a ∷ m} {n = b ∷ n} (Permᴰ.cons e p) (single, unique) =
    let (unique', same) = lookup-perm p unique in
    let key : a.0 ≡ b.0 = ap (λ x. x.0) e in
    let value : a.1 ≡ b.1 = ap (λ x. x.1) e in
    ((same b.0 ∙ rw (sym key) single, unique'), λ k. rw key (rw value (rw (same k) refl)))
lookup-perm {m = a ∷ (b ∷ m)} (Permᴰ.swap e f) unique =
    rw (sym e) (rw (sym f) (lookup-swap a b m unique))
lookup-perm (Permᴰ.trans p q) unique =
    let (middle, one) = lookup-perm p unique in
    let (last, two) = lookup-perm q middle in (last, λ k. two k ∙ one k)

below :
    (j : ℤ) (v : String) (m : Dict ℤ String) (k : ℤ) (w : String)
    → lookup m j ≡ none
    → lookup m k ≡ some w
    → lookup ((j, v) ∷ m) k ≡ some w
unfolding lookup
below j v m k w single found = elim (Bool-cases (j == k)) [
  | inl same ↦
      let key : j ≡ k = (int_eq.same_iff j k).0 same in
      let impossible : none ≡ some w = sym single ∙ rw key found in ground arith
  | inr other ↦ rw other found
]

read_all :
    (f : ℤ → Option String) (m : Dict ℤ String)
    → HasUniqueKeys m
    → ((k : ℤ) (v : String) → lookup m k ≡ some v → f k ≡ some v)
    → map (λ index. or_empty (f index)) (indexes m) ≡ map (λ (index, hash). hash) m
unfolding lookup
read_all f [] unique agrees = refl
read_all f ((j, v) ∷ m) (single, unique) agrees =
    let own : f j ≡ some v = agrees j v (rw ((int_eq.same_iff j j).1 refl) refl) in
    let rest = read_all f m unique (λ k w found. agrees k w (below j v m k w single found)) in
    rw own (ap (λ hashes. v ∷ hashes) rest)

post_process-permuted :
    (txs_hashes in_order : Dict ℤ String)
    → IsAscending is_less (indexes in_order)
    → Permᴰ in_order txs_hashes
    → post_process_send_multiple_txs_result txs_hashes ≡ map (λ (index, hash). hash) in_order
unfolding post_process_send_multiple_txs_result
post_process-permuted txs_hashes in_order up p =
    let unique = ascending-HasUniqueKeys in_order up in
    let (unique', same) = lookup-perm p unique in
    let sorted : sort_slice is_less (indexes txs_hashes) ≡ indexes in_order =
      sym (sort_slice-perm is_less is_less-IsLinear (indexes-perm p))
      ∙ sort_slice_ascending is_less (indexes in_order) up in
    rw sorted (read_all (lookup txs_hashes) in_order unique (λ k v found. same k ∙ found))

module _ {W : Type 0} (ep : BlockchainProxy W) where
  -- Where the chain takes a list of transactions and answers with their hashes, in a map whose entries
  -- come in any order, the hashes are returned in the order of the indexes that they have in the map.
  pub send_transactions_in_order :
      (marshal : List FrontendTransaction → Result Bytes)
      (unmarshal : Bytes → Result (Reply (Dict ℤ String))) (txs : List FrontendTransaction)
      (body buff : Bytes) (w w' : W) (txs_hashes in_order : Dict ℤ String)
      → marshal txs ≡ ok body
      → ep.post_http send_multiple_transactions body w
        ≡ (record { error = none; code = 200; buff = buff }, w')
      → unmarshal buff ≡ ok record { content = txs_hashes; error = "" }
      → Perm in_order txs_hashes
      → IsAscending is_less (indexes in_order)
      → send_transactions ep marshal unmarshal txs w
        ≡ (ok (map (λ (index, hash). hash) in_order), w')
  unfolding send_transactions post_json post body_of
  send_transactions_in_order marshal unmarshal txs body buff w w' txs_hashes in_order e f g p up =
      let hashes = ∥∥₁_elim p (strings_set _ _) (post_process-permuted txs_hashes in_order up) in
      rw e (rw f (rw g (rw hashes refl)))
