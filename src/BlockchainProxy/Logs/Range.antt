-- ===== src/BlockchainProxy/Logs/Range.antt =====
-- The range of blocks that a filter asks for.
use mx_sdk_erdgo.Prelude.{
  ℕ, ◌+◌, ◌-◌, ◌≤◌, ◌<◌, ◌≡◌, sym, ap, ◌⊎◌, inl, inr, true, Bool-cases, Option, none, some, arith,
  ltb, leb, if◌then◌else◌,
}
use mx_sdk_erdgo.Prelude.Exec.{ok, err, plain}
use mx_sdk_erdgo.Prelude.Success.{differ_err, ok-injective}
use mx_sdk_erdgo.Chain.{u64}
use mx_sdk_erdgo.BlockchainProxy.Logs.{
  FilterQuery, difference, limited, range_of, is_above, maximum_blocks_delta, resolve_block_range,
}

-- A value that is set, or what stands for one that is not.
abbrev pub given : Option ℕ → ℕ → ℕ
given none default = default
given (some n) default = n

abbrev pub IsUint64 : Option ℕ → Type 0
IsUint64 none = Unit
IsUint64 (some n) = n < u64

-- At most 501 blocks, or none, the first being so far up that the difference wraps around.
abbrev pub IsShort : ℕ → ℕ → Type 0
IsShort first last =
    ((first ≤ last) × (last ≤ first + 500)) ⊎ ((last < first) × (last + u64 ≤ first + 500))

short :
    (a b : ℕ) → a < u64 → b < u64 → leb (difference b a) maximum_blocks_delta ≡ true → IsShort a b
short a b small small' e = elim (Bool-cases (leb a b)) [
  | inl up ↦
      let le : a ≤ b = ground arith in
      let kept : difference b a ≡ b - a = omega arith in
      let near : b - a ≤ 500 = ground arith in inl (le, omega arith)
  | inr down ↦
      let lt : b < a = ground arith in
      let kept : difference b a ≡ b + (u64 - a) = omega arith in
      let near : b + (u64 - a) ≤ 500 = ground arith in inr (lt, omega arith)
]

limited-ok :
    (from_block to_block first last : ℕ)
    → from_block < u64
    → to_block < u64
    → limited from_block to_block ≡ ok (first, last)
    → (first ≡ from_block) × (last ≡ to_block) × IsShort first last
limited-ok from_block to_block first last a b e =
    elim (Bool-cases (leb (difference to_block from_block) maximum_blocks_delta)) [
      | inl within ↦
          let range : ok (from_block, to_block) ≡ ok (first, last) = rw within at e in
          let same = ok-injective (from_block, to_block) (first, last) range in
          let one : from_block ≡ first = ap (λ r. r.0) same in
          let two : to_block ≡ last = ap (λ r. r.1) same in
          (sym one, sym two, rw (sym one) (rw (sym two) (short from_block to_block a b within)))
      | inr beyond ↦ differ_err _ _ (rw beyond at e)
    ]

ranged :
    (from to : Option ℕ) (latest_block first last : ℕ)
    → IsUint64 from
    → IsUint64 to
    → latest_block < u64
    → (if is_above to latest_block
        then err (plain "toBlock is greater than the latest block")
        else range_of from to latest_block)
      ≡ ok (first, last)
    → (first ≡ given from 0)
      × (last ≡ given to latest_block)
      × (last ≤ latest_block)
      × IsShort first last
ranged (some f) (some t) latest_block first last a b c e = elim (Bool-cases (ltb latest_block t)) [
  | inl above ↦ differ_err _ _ (rw above at e)
  | inr below ↦
      let (one, two, near) = limited-ok f t first last a b (rw below at e) in
      (one, two, rw two (ground arith), near)
]
ranged (some f) none latest_block first last a b c e =
    let (one, two, near) = limited-ok f latest_block first last a c e in
    (one, two, omega arith, near)
ranged none (some t) latest_block first last a b c e = elim (Bool-cases (ltb latest_block t)) [
  | inl above ↦ differ_err _ _ (rw above at e)
  | inr below ↦
      let (one, two, near) = limited-ok 0 t first last (omega arith) b (rw below at e) in
      (one, two, rw two (ground arith), near)
]
ranged none none latest_block first last a b c e = differ_err _ _ e

-- The range of a filter that is resolved goes from the first block that is given, or the genesis block,
-- to the last one that is given, or the latest one, and no further. It has at most 501 blocks; or it is
-- empty, as the first block is so high that the difference wraps around.
pub resolve_block_range-ok :
    (filter : FilterQuery) (latest_block first last : ℕ)
    → IsUint64 filter.from_block
    → IsUint64 filter.to_block
    → latest_block < u64
    → resolve_block_range filter latest_block ≡ ok (first, last)
    → (first ≡ given filter.from_block 0)
      × (last ≡ given filter.to_block latest_block)
      × (last ≤ latest_block)
      × IsShort first last
unfolding resolve_block_range
resolve_block_range-ok filter latest_block first last a b c e =
    ranged filter.from_block filter.to_block latest_block first last a b c e
