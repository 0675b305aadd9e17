-- ===== src/Serde/SourceBuffer/Stream.antt =====
-- The readers of the source buffer as operations on what is left to read.
use mx_sdk_erdgo.Prelude.{
  ℕ, zero, suc, ◌+◌, ◌-◌, ◌<◌, ◌≤◌, ◌^◌, min, ◌≡◌, refl, sym, ◌∙◌, true, false, List, [], ◌∷◌,
  arith, length, take, drop, length-drop, ltb, leb, Bool-cases, ◌⊎◌, inl, inr,
}
use mx_sdk_erdgo.Prelude.Exec.{ok}
use mx_sdk_erdgo.Chain.{Bytes}
use mx_sdk_erdgo.Serde.SourceBuffer.{
  SourceBuffer, safe_add, read_end, next_bytes, skip, byte_at, next_byte,
}

-- The offset lies within the slice, and the slice fits into memory.
abbrev pub IsInBounds : SourceBuffer → Type 0
IsInBounds sb = (sb.off ≤ length sb.s) × (length sb.s < 2 ^ 63)

abbrev pub rest : SourceBuffer → Bytes
rest sb = drop sb.off sb.s

drop-drop : {A : Type 0} (m n : ℕ) (xs : List A) → drop n (drop m xs) ≡ drop (m + n) xs
drop-drop zero n xs = let e : 0 + n ≡ n = omega arith in rw e refl
drop-drop (suc m) zero [] = let e : suc m + 0 ≡ suc m = omega arith in rw e refl
drop-drop (suc m) (suc n) [] = let e : suc m + suc n ≡ suc (m + suc n) = omega arith in rw e refl
drop-drop (suc m) n (x ∷ xs) =
    let e : suc m + n ≡ suc (m + n) = omega arith in rw e (drop-drop m n xs)

module _ {A : Type 0} where
  take-min : (n : ℕ) (xs : List A) → take (min n (length xs)) xs ≡ take n xs
  take-min zero xs = let e : min 0 (length xs) ≡ 0 = omega arith in rw e refl
  take-min (suc n) [] = let e : min (suc n) 0 ≡ 0 = omega arith in rw e refl
  take-min (suc n) (x ∷ xs) =
      let e : min (suc n) (suc (length xs)) ≡ suc (min n (length xs)) = omega arith in
      rw e (rw (take-min n xs) refl)

  drop-min : (n : ℕ) (xs : List A) → drop (min n (length xs)) xs ≡ drop n xs
  drop-min zero xs = let e : min 0 (length xs) ≡ 0 = omega arith in rw e refl
  drop-min (suc n) [] = let e : min (suc n) 0 ≡ 0 = omega arith in rw e refl
  drop-min (suc n) (x ∷ xs) =
      let e : min (suc n) (suc (length xs)) ≡ suc (min n (length xs)) = omega arith in
      rw e (drop-min n xs)

drop-length : {A : Type 0} (n : ℕ) (xs : List A) → length xs ≤ n → drop n xs ≡ []
drop-length zero [] le = refl
drop-length zero (x ∷ xs) le = ground arith
drop-length (suc n) [] le = refl
drop-length (suc n) (x ∷ xs) le = drop-length n xs (omega arith)

-- A read ends behind `n` bytes, or at the end of the slice if fewer are left.
read_end_lem :
    (sb : SourceBuffer) (n : ℕ)
    → IsInBounds sb
    → n < 2 ^ 63
    → read_end sb n ≡ (sb.off + min n (length (rest sb)), ltb (length (rest sb)) n)
unfolding read_end safe_add
read_end_lem sb n (le, small) fits = let l = length-drop sb.off sb.s in rw l (ground arith)

next_bytes_lem :
    (n : ℕ) (sb : SourceBuffer)
    → IsInBounds sb
    → n < 2 ^ 63
    → next_bytes n sb ≡ (
      ok (take n (rest sb), ltb (length (rest sb)) n),
      record sb { off = sb.off + min n (length (rest sb)) },
    )
unfolding next_bytes
next_bytes_lem n sb bounds fits =
    let k = min n (length (rest sb)) in
    let ends : ltb (sb.off + k) sb.off ≡ false = ground arith in
    let size : sb.off + k - sb.off ≡ k = omega arith in
    rw (read_end_lem sb n bounds fits) (rw ends (rw size (rw (take-min n (rest sb)) refl)))

-- Reading `n` bytes takes the first `n` of what is left, or all of it and `eof` if fewer are left.
-- It never panics, and the offset stays in bounds.
pub next_bytes_stream :
    (n : ℕ) (sb : SourceBuffer)
    → IsInBounds sb
    → n < 2 ^ 63
    → ((next_bytes n sb).0 ≡ ok (take n (rest sb), ltb (length (rest sb)) n))
      × (rest (next_bytes n sb).1 ≡ drop n (rest sb))
      × IsInBounds (next_bytes n sb).1
next_bytes_stream n sb bounds fits =
    let k = min n (length (rest sb)) in
    let l = length-drop sb.off sb.s in
    let moved : drop (sb.off + k) sb.s ≡ drop n (rest sb) =
      sym (drop-drop sb.off k sb.s) ∙ drop-min n (rest sb) in
    rw (next_bytes_lem n sb bounds fits) (refl, moved, (omega arith, bounds.1))

-- Skipping `n` bytes leaves what reading them leaves.
pub skip-next_bytes :
    (n : ℕ) (sb : SourceBuffer)
    → IsInBounds sb
    → n < 2 ^ 63
    → skip n sb ≡ (ok (ltb (length (rest sb)) n), (next_bytes n sb).1)
unfolding skip
skip-next_bytes n sb bounds fits =
    rw (next_bytes_lem n sb bounds fits) (rw (read_end_lem sb n bounds fits) refl)

drop-byte_at : (i : ℕ) (xs : Bytes) → i < length xs → drop i xs ≡ byte_at xs i ∷ drop (i + 1) xs
unfolding byte_at
drop-byte_at i [] lt = ground arith
drop-byte_at zero (x ∷ xs) lt = refl
drop-byte_at (suc i) (x ∷ xs) lt =
    let e : suc i + 1 ≡ suc (i + 1) = omega arith in rw e (drop-byte_at i xs (omega arith))

-- Reading one byte takes the first of what is left; it is 0 with `eof` if there is none.
next_byte_stream :
    (sb : SourceBuffer)
    → IsInBounds sb
    → (((next_byte sb).0 ≡ ok (0, true)) × (rest sb ≡ []) × ((next_byte sb).1 ≡ sb))
      ⊎ ((b : ℕ) × ((next_byte sb).0 ≡ ok (b, false))
          × (rest sb ≡ b ∷ rest (next_byte sb).1)
          × IsInBounds (next_byte sb).1)
unfolding next_byte
next_byte_stream sb (le, small) = elim (Bool-cases (leb (length sb.s) sb.off)) [
  | inl out ↦ rw out (inl (refl, drop-length sb.off sb.s (ground arith), refl))
  | inr within ↦
      let lt : sb.off < length sb.s = ground arith in
      rw within (inr (byte_at sb.s sb.off, refl, drop-byte_at sb.off sb.s lt, (omega arith, small)))
]
