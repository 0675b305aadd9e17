-- ===== src/Heap.antt =====
-- Go's container/heap, which the transaction worker keeps its queue with: a binary heap over whatever
-- implements its interface. none is a run-time panic, or fuel that has run out.
pub mod Order
pub mod Rise
pub mod Sink
use mx_sdk_erdgo.Prelude.{
  ℕ, zero, suc, ◌+◌, ◌-◌, ◌*◌, ◌/◌, Bool, true, false, Option, none, some, ltb, leb, ◌==◌, nat_eq,
  if◌then◌else◌,
}

-- `heap.Interface`, with `sort.Interface`, over a value `H` that is changed in place and items `X`.
pub record Interface (H X : Type 0) : Type 0 where
  pub len : H → ℕ
  pub less : ℕ → ℕ → H → Option Bool
  pub swap : ℕ → ℕ → H → Option H
  pub push : X → H → H
  pub pop : H → Option (X × H)

infixl 5 ◌>>=◌
abbrev pub ◌>>=◌ : {A B : Type 0} → Option A → (A → Option B) → Option B
none >>= f = none
some a >>= f = f a

abbrev pub parent : ℕ → ℕ
parent j = (j - 1) / 2

module _ {H X : Type 0} (interface : Interface H X) where
  -- `up`: an item rises while it is less than its parent. The root is its own parent.
  unfoldable pub up_loop : ℕ → ℕ → H → Option H
  up_loop zero j h = none
  up_loop (suc fuel) j h =
      let rise : Option H = do h' ← interface.swap (parent j) j h; up_loop fuel (parent j) h'
      in if parent j == j
        then some h
        else do below ← interface.less j (parent j) h; if below then rise else some h

  -- The child to compare with: the right one if there is one and it is less than the left one.
  unfoldable pub least_child : ℕ → ℕ → H → Option ℕ
  least_child i n h =
      let left = 2 * i + 1 in
      if ltb (left + 1) n
      then (do
        smaller ← interface.less (left + 1) left h
        some (if smaller then left + 1 else left))
      else some left

  -- `down`: an item sinks among the first `n` while a child is less.
  unfoldable pub down_loop : ℕ → ℕ → ℕ → H → Option H
  unfolding least_child
  down_loop zero i n h = none
  down_loop (suc fuel) i n h = if leb n (2 * i + 1) then some h else do
    j ← least_child i n h
    below ← interface.less j i h
    if below then (do h' ← interface.swap i j h; down_loop fuel j n h') else some h

  -- `Push`: each round of `up` goes to a smaller index.
  unfoldable pub heap_push : X → H → Option H
  unfolding up_loop
  heap_push x h =
      let h' = interface.push x h in up_loop (interface.len h') (interface.len h' - 1) h'

  -- `Pop`: each round of `down` goes to a greater index.
  unfoldable pub heap_pop : H → Option (X × H)
  unfolding down_loop
  heap_pop h =
      let n = interface.len h - 1 in
      do h1 ← interface.swap 0 n h; h2 ← down_loop (n + 1) 0 n h1; interface.pop h2
