-- ===== src/Finality/CrossCheck.antt =====
-- The text in which the metachain gives the nonces of the shards, and what is found in it.
use mx_sdk_erdgo.Prelude.{
  ℕ, ◌%◌, ◌<◌, ◌≡◌, ◌≢◌, ◌⊎◌, refl, sym, ap, ◌∙◌, Bool-cases, inl, inr, Option, none, some, List,
  [], ◌∷◌, arith, All, ◌==◌, nat_eq, bytes_eq, if◌then◌else◌,
}
use mx_sdk_erdgo.Prelude.Exec.{Result, ok, err, wrapped, invalid_nonce_cross_check_value_format}
use mx_sdk_erdgo.Dict.{Dict, lookup}
use mx_sdk_erdgo.Chain.{Bytes, u64}
use mx_sdk_erdgo.BigInt.{pos, set_string}
use mx_sdk_erdgo.Text.{
  join, split, split-join, HasNoSeparator, append-HasNoSeparator, append_filled,
}
use mx_sdk_erdgo.Text.Space.{trim_space, trim_space-digits, trim_space-after}
use mx_sdk_erdgo.Text.Decimal.{format_int, AreDigits, format_int-AreDigits, set_string-format_int}
use mx_sdk_erdgo.Finality.{round, find_shard, extract_nonce_of_shard_id}

-- A shard and its nonce, as in `0: 9169897`.
abbrev pub entry : ℕ × ℕ → Bytes
entry (id, nonce) = join 58 (format_int (pos id) ∷ (32 ∷ format_int (pos nonce)) ∷ [])

-- The parts behind the first: each begins with a space, and the last is nothing else.
abbrev pub later_parts : Dict ℕ ℕ → List Bytes
later_parts [] = (32 ∷ []) ∷ []
later_parts (e ∷ m) = (32 ∷ entry e) ∷ later_parts m

-- As in `0: 9169897, 1: 9166353, 2: 9170524, `.
unfoldable pub cross_check_value : ℕ × ℕ → Dict ℕ ℕ → Bytes
cross_check_value e m = join 44 (entry e ∷ later_parts m)

-- The nonce of a shard that is there, as a uint64.
abbrev pub or_missing : Option ℕ → Result ℕ
or_missing none = err (wrapped "value not found for shard" invalid_nonce_cross_check_value_format)
or_missing (some nonce) = ok (nonce % u64)

format_int-differs : (m n : ℕ) → (format_int (pos m) == format_int (pos n)) ≡ (m == n)
format_int-differs m n = elim (Bool-cases (m == n)) [
  | inl same ↦
      let e : m ≡ n = (nat_eq.same_iff m n).0 same in
      rw same ((bytes_eq.same_iff _ _).1 (ap (λ k. format_int (pos k)) e))
  | inr other ↦ elim (Bool-cases (format_int (pos m) == format_int (pos n))) [
    | inl equal ↦
        let texts = (bytes_eq.same_iff (format_int (pos m)) (format_int (pos n))).0 equal in
        let values : some (pos m) ≡ some (pos n) =
          sym (set_string-format_int (pos m))
          ∙ (ap set_string texts ∙ set_string-format_int (pos n)) in
        ground arith
    | inr differ ↦ differ ∙ sym other
  ]
]

digits-clean :
    (n separator : ℕ)
    → (separator < 48) ⊎ (57 < separator)
    → HasNoSeparator separator (format_int (pos n))
digits-clean n separator outside = clean (format_int (pos n)) (format_int-AreDigits n)
  where
    clean : (cs : Bytes) → AreDigits cs → HasNoSeparator separator cs
    clean [] d = tt
    clean (c ∷ cs) ((low, high), d) = (ground arith, clean cs d)

-- A part of the text, with the shard's number behind spaces or not.
abbrev part : Bytes → ℕ → Bytes
part id nonce = join 58 (id ∷ (32 ∷ format_int (pos nonce)) ∷ [])

round-part :
    (shard id : Bytes) (nonce : ℕ)
    → HasNoSeparator 58 id
    → round shard (split 58 (part id nonce))
      ≡ (if trim_space id == shard then some (ok (nonce % u64)) else none)
round-part shard id nonce clean =
    let digits = digits-clean nonce 58 (inr (omega arith)) in
    rw (split-join 58 id ((32 ∷ format_int (pos nonce)) ∷ []) clean ((ground arith, digits), tt)) (
      rw (trim_space-after (format_int (pos nonce)) (format_int-AreDigits nonce))
        (rw (set_string-format_int (pos nonce)) refl))

part-clean : (id : Bytes) (nonce : ℕ) → HasNoSeparator 44 id → HasNoSeparator 44 (part id nonce)
unfolding join
part-clean id nonce clean =
    append-HasNoSeparator 44 id (58 ∷ 32 ∷ format_int (pos nonce)) clean
      (ground arith, (ground arith, digits-clean nonce 44 (inl (omega arith))))

find_shard-later_parts :
    (m : Dict ℕ ℕ) (id : ℕ)
    → find_shard (format_int (pos id)) (later_parts m) ≡ or_missing (lookup m id)
unfolding find_shard lookup join split
find_shard-later_parts [] id = refl
find_shard-later_parts ((j, nonce) ∷ m) id =
    let text = format_int (pos j) in
    let found =
      round-part (format_int (pos id)) (32 ∷ text) nonce
        (ground arith, digits-clean j 58 (inr (omega arith))) in
    rw found (
      rw (trim_space-after text (format_int-AreDigits j)) (
        rw (format_int-differs j id) (elim (Bool-cases (j == id)) [
          | inl same ↦ rw same refl
          | inr other ↦ rw other (find_shard-later_parts m id)
        ])))

later_parts-clean : (m : Dict ℕ ℕ) → All (HasNoSeparator 44) (later_parts m)
later_parts-clean [] = ((ground arith, tt), tt)
later_parts-clean ((j, nonce) ∷ m) = (
  (ground arith, part-clean (format_int (pos j)) nonce (digits-clean j 44 (inl (omega arith)))),
  later_parts-clean m,
)

cross_check_value-filled : (e : ℕ × ℕ) (m : Dict ℕ ℕ) → cross_check_value e m ≢ []
unfolding cross_check_value join
cross_check_value-filled e [] = append_filled (entry e) 44 _
cross_check_value-filled e (e' ∷ m) = append_filled (entry e) 44 _

extract-split :
    (text : Bytes) (id : ℕ)
    → text ≢ []
    → extract_nonce_of_shard_id text id ≡ find_shard (format_int (pos id)) (split 44 text)
unfolding extract_nonce_of_shard_id
extract-split [] id filled = absurd (filled refl)
extract-split (c ∷ cs) id filled = refl

-- In a text that gives the nonces of one or more shards, the nonce of a shard is found as a uint64 if it is
-- there, and is the first one if there are several; it is an error otherwise.
pub extract_nonce_of_shard_id-lookup :
    (e : ℕ × ℕ) (m : Dict ℕ ℕ) (id : ℕ)
    → extract_nonce_of_shard_id (cross_check_value e m) id ≡ or_missing (lookup (e ∷ m) id)
unfolding cross_check_value find_shard lookup
extract_nonce_of_shard_id-lookup (j, nonce) m id =
    let text = format_int (pos j) in
    let parts =
      split-join 44 (entry (j, nonce)) (later_parts m)
        (part-clean text nonce (digits-clean j 44 (inl (omega arith)))) (later_parts-clean m) in
    let found =
      round-part (format_int (pos id)) text nonce (digits-clean j 58 (inr (omega arith))) in
    extract-split (cross_check_value (j, nonce) m) id (cross_check_value-filled (j, nonce) m)
    ∙ rw parts (
        rw found (
          rw (trim_space-digits text (format_int-AreDigits j)) (
            rw (format_int-differs j id) (elim (Bool-cases (j == id)) [
              | inl same ↦ rw same refl
              | inr other ↦ rw other (find_shard-later_parts m id)
            ]))))
