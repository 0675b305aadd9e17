-- ===== src/BlockchainProxy/Logs/Matching.antt =====
-- Which events match a filter.
use mx_sdk_erdgo.Prelude.{
  ◌≡◌, refl, sym, ap, ◌∙◌, ◌↔◌, ◌⊎◌, inl, inr, String, string_eq, Bool, true, false, Bool-cases,
  List, [], ◌∷◌, ◌++◌, Mem, arith, length, length-append, ltb, ◌==◌, bytes_eq,
}
use mathlib.Core.Logic.{∥∥₁_elim}
use mathlib.Core.List.{Memᴰ, mem-cons_self, mem-cons_of_mem}
use mx_sdk_erdgo.Chain.{Bytes}
use mx_sdk_erdgo.BlockchainProxy.Logs.{
  FilterQuery, Event, is_among, contains, same_topics, topics_match, matches_filter,
}

-- The event is of one of the addresses, if there are any, and its topics begin with those of the filter.
pub record IsWanted (filter : FilterQuery) (event : Event) : Type 0 where
  pub address : (filter.addresses ≡ []) ⊎ Mem event.address filter.addresses
  pub rest : List Bytes
  pub topics : event.topics ≡ filter.topics ++ rest

bools_set : (a b : Bool) (p q : a ≡ b) → p ≡ q
bools_set = hlevel

is_among-there :
    {address : String} {xs : List String} → Memᴰ address xs → is_among address xs ≡ true
unfolding is_among
is_among-there {xs = []} there = elim there [ ]
is_among-there {address = address} {xs = a ∷ xs} (Memᴰ.head e) =
    rw ((string_eq.same_iff a address).1 (sym e)) refl
is_among-there {address = address} {xs = a ∷ xs} (Memᴰ.tail below) =
    let rest = is_among-there below in ground arith

is_among-found : (address : String) (xs : List String) → is_among address xs ≡ true → Mem address xs
unfolding is_among
is_among-found address [] e = ground arith
is_among-found address (a ∷ xs) e = elim (Bool-cases (a == address)) [
  | inl same ↦ rw ((string_eq.same_iff a address).0 same) mem-cons_self
  | inr other ↦ mem-cons_of_mem a (is_among-found address xs (rw other at e))
]

pub is_among_iff :
    (address : String) (xs : List String) → (is_among address xs ≡ true) ↔ Mem address xs
is_among_iff address xs =
    (is_among-found address xs, λ there. ∥∥₁_elim there (bools_set _ _) is_among-there)

contains_iff :
    (xs : List String) (address : String)
    → (contains xs address ≡ true) ↔ ((xs ≡ []) ⊎ Mem address xs)
unfolding contains
contains_iff [] address = (λ e. inl refl, λ wanted. refl)
contains_iff (a ∷ xs) address =
    let (there, back) = is_among_iff address (a ∷ xs) in
    (
      λ e. inr (there e),
      λ wanted. elim wanted [ inl empty ↦ ground arith | inr found ↦ back found ],
    )

topics_found :
    (ts us : List Bytes) → same_topics ts us ≡ true → (rest : List Bytes) × (us ≡ ts ++ rest)
unfolding same_topics
topics_found [] us e = (us, refl)
topics_found (t ∷ ts) [] e = ground arith
topics_found (t ∷ ts) (u ∷ us) e = elim (Bool-cases (t == u)) [
  | inl same ↦
      let (rest, below) = topics_found ts us (rw same at e) in
      (rest, cc (below, (bytes_eq.same_iff t u).0 same))
  | inr other ↦ let impossible : false ≡ true = rw other at e in ground arith
]

topics_there : (ts rest : List Bytes) → same_topics ts (ts ++ rest) ≡ true
unfolding same_topics
topics_there [] rest = refl
topics_there (t ∷ ts) rest = rw ((bytes_eq.same_iff t t).1 refl) (topics_there ts rest)

topics_match_iff :
    (ts us : List Bytes) → (topics_match ts us ≡ true) ↔ ((rest : List Bytes) × (us ≡ ts ++ rest))
unfolding topics_match
topics_match_iff ts us = (
  λ e. elim (Bool-cases (ltb (length us) (length ts))) [
    | inl short ↦ let impossible : false ≡ true = rw short at e in ground arith
    | inr long ↦ topics_found ts us (rw long at e)
  ],
  λ (rest, e).
      let long : ltb (length us) (length ts) ≡ false =
        rw (ap length e) (rw (length-append ts rest) (ground arith)) in
      let same : same_topics ts us ≡ true = rw e (topics_there ts rest) in rw long same,
)

unmatched : (ts us : List Bytes) → topics_match ts us ≡ false → ltb 0 (length ts) ≡ true
unmatched [] us e =
    let impossible : false ≡ true = sym e ∙ (topics_match_iff [] us).1 (us, refl) in ground arith
unmatched (t ∷ ts) us e = ground arith

-- The filter matches an event exactly if the event is of one of the addresses, or there are none in the
-- filter, and the topics of the event begin with those of the filter, in their order.
pub matches_filter_iff :
    (filter : FilterQuery) (event : Event)
    → (matches_filter filter event ≡ true) ↔ IsWanted filter event
unfolding matches_filter
matches_filter_iff filter event =
    let (found, there) = contains_iff filter.addresses event.address in
    let (found', there') = topics_match_iff filter.topics event.topics in
    (
      λ e. elim (Bool-cases (contains filter.addresses event.address)) [
        | inr other ↦ let impossible : false ≡ true = rw other at e in ground arith
        | inl one ↦ elim (Bool-cases (topics_match filter.topics event.topics)) [
          | inl both ↦
              let (rest, topics) = found' both in
              record { address = found one; rest = rest; topics = topics }
          | inr other ↦
              let nonempty = unmatched filter.topics event.topics other in
              let impossible : false ≡ true = rw (one, nonempty, other) at e in ground arith
        ]
      ],
      λ wanted.
          let one = there wanted.address in
          let both = there' (wanted.rest, wanted.topics) in ground arith,
    )
