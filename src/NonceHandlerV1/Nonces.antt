-- ===== src/NonceHandlerV1/Nonces.antt =====
-- The nonces that `getNonceUpdatingCurrent` hands out, over any interleaving of its callers: only
-- its locked section changes the nonce, so the account's nonces may have been read in any order.
use mx_sdk_erdgo.Prelude.{
  ℕ, zero, suc, ◌+◌, ◌≤◌, ◌<◌, ◌≡◌, refl, true, List, [], ◌∷◌, arith, length, if◌then◌else◌,
}
use mx_sdk_erdgo.Chain.{u64}
use mx_sdk_erdgo.NonceHandlerV1.{
  AddressNonceHandler, next_nonce, decrement_computed_nonce, mark_re_fetch_nonce,
}

-- The answers to callers that observed these nonces of the account, in the order of the lock.
unfoldable pub hand_out : List ℕ → AddressNonceHandler → List ℕ
hand_out [] anh = []
hand_out (a ∷ observed) anh = let (n, anh') = next_nonce a anh in n ∷ hand_out observed anh'

-- k numbers from n on.
abbrev pub count_from : ℕ → ℕ → List ℕ
count_from n zero = []
count_from n (suc k) = n ∷ count_from (n + 1) k

-- Where the nonces from n on are handed out, no call observes an account ahead of its own nonce.
abbrev pub StaysBehind : ℕ → List ℕ → Type 0
StaysBehind n [] = Unit
StaysBehind n (a ∷ observed) = (a ≤ n) × StaysBehind (n + 1) observed

-- The nonce to hand out to a caller that observed `a`, if the account is not ahead.
abbrev pub upcoming : ℕ → AddressNonceHandler → ℕ
upcoming a anh = if anh.computed_nonce_was_set then anh.computed_nonce + 1 else a

next_nonce_step :
    (a n : ℕ) (anh : AddressNonceHandler)
    → upcoming a anh ≡ n
    → a ≤ n
    → n < u64
    → next_nonce a anh ≡ (n, record anh { computed_nonce = n; computed_nonce_was_set = true })
unfolding next_nonce
next_nonce_step a n anh e le lt = ground arith

hand_out_from :
    (observed : List ℕ) (n : ℕ) (anh : AddressNonceHandler)
    → anh.computed_nonce_was_set ≡ true
    → anh.computed_nonce + 1 ≡ n
    → StaysBehind n observed
    → n + length observed ≤ u64
    → hand_out observed anh ≡ count_from n (length observed)
unfolding hand_out
hand_out_from [] n anh was_set e behind fits = refl
hand_out_from (a ∷ observed) n anh was_set e (le, behind) fits =
    let step = next_nonce_step a n anh (rw was_set e) le (omega arith) in
    rw step (
      ap_cons n (
        hand_out_from observed (n + 1)
          (record anh { computed_nonce = n; computed_nonce_was_set = true }) refl refl behind
          (omega arith)))
  where
    ap_cons : {xs ys : List ℕ} (m : ℕ) → xs ≡ ys → (m ∷ xs) ≡ (m ∷ ys)
    ap_cons m p = cc

-- As long as no caller observes an account that is ahead of the nonce it is to get, and no nonce
-- passes 2^64, the callers get consecutive nonces, each one once, whatever they observed else: from
-- the account's nonce on where the nonce was not set, and behind the last one where it was.
pub hand_out-count_from :
    (a : ℕ) (observed : List ℕ) (anh : AddressNonceHandler)
    → StaysBehind (upcoming a anh) (a ∷ observed)
    → upcoming a anh + length (a ∷ observed) ≤ u64
    → hand_out (a ∷ observed) anh ≡ count_from (upcoming a anh) (length (a ∷ observed))
unfolding hand_out
hand_out-count_from a observed anh (le, behind) fits =
    let n = upcoming a anh in
    rw (next_nonce_step a n anh refl le (omega arith)) (
      ap_cons n (
        hand_out_from observed (n + 1)
          (record anh { computed_nonce = n; computed_nonce_was_set = true }) refl refl behind
          (omega arith)))
  where
    ap_cons : {xs ys : List ℕ} (m : ℕ) → xs ≡ ys → (m ∷ xs) ≡ (m ∷ ys)
    ap_cons m p = cc

-- An account that is two or more ahead of the stored nonce makes two calls in a row hand out one
-- nonce, the account's: the stored nonce is not brought up to it.
next_nonce_repeats :
    (a : ℕ) (anh : AddressNonceHandler)
    → anh.computed_nonce_was_set ≡ true
    → anh.computed_nonce + 2 ≤ a
    → a < u64
    → ((next_nonce a anh).0 ≡ a) × ((next_nonce a (next_nonce a anh).1).0 ≡ a)
unfolding next_nonce
next_nonce_repeats a anh was_set ahead fits = ground arith

-- A refused transaction gives its nonce back: behind a decrement the nonce that was just handed
-- out is handed out again, if neither account nonce is ahead of it. Behind a mark the caller gets
-- the nonce that it observed.
next_nonce_again :
    (a b : ℕ) (anh : AddressNonceHandler)
    → a ≤ upcoming a anh
    → 0 < upcoming a anh
    → upcoming a anh < u64
    → b ≤ upcoming a anh
    → ((next_nonce b (decrement_computed_nonce (next_nonce a anh).1).1).0 ≡ upcoming a anh)
      × ((next_nonce b (mark_re_fetch_nonce (next_nonce a anh).1).1).0 ≡ b)
unfolding next_nonce decrement_computed_nonce mark_re_fetch_nonce
next_nonce_again a b anh le pos lt le' =
    rw (next_nonce_step a (upcoming a anh) anh refl le lt) (ground arith)
