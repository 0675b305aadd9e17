-- ===== src/BlockchainProxy/Logs/Flat.antt =====
-- The loops over the mini blocks and the transactions of a block, as one filter of its events.
use mx_sdk_erdgo.Prelude.{
  ℕ, zero, suc, ◌+◌, ◌≡◌, refl, sym, ap, inl, inr, Bool-cases, List, [], ◌∷◌, ◌++◌,
}
use mx_sdk_erdgo.BlockchainProxy.Logs.{
  FilterQuery, Event, BlockTransaction, MiniBlock, Block, events_of, matches_filter, matching_of,
  matching_in_transactions, matching_in_mini_blocks,
}

-- The events of a block, in their order.
abbrev pub events_in_transactions : List BlockTransaction → List Event
events_in_transactions [] = []
events_in_transactions (tx ∷ txs) = events_of tx ++ events_in_transactions txs

abbrev pub events_in_mini_blocks : List MiniBlock → List Event
events_in_mini_blocks [] = []
events_in_mini_blocks (mini_block ∷ mini_blocks) =
    events_in_transactions mini_block.transactions ++ events_in_mini_blocks mini_blocks

-- The events of `count` blocks.
abbrev pub events_between : (ℕ → Block) → ℕ → ℕ → List Event
events_between block zero first = []
events_between block (suc count) first =
    events_in_mini_blocks (block first).mini_blocks ++ events_between block count (first + 1)

pub matching_of-append :
    (filter : FilterQuery) (xs ys : List Event)
    → matching_of filter (xs ++ ys) ≡ matching_of filter xs ++ matching_of filter ys
unfolding matching_of
matching_of-append filter [] ys = refl
matching_of-append filter (x ∷ xs) ys =
    let rest = matching_of-append filter xs ys in
    elim (Bool-cases (matches_filter filter x)) [
      | inl wanted ↦ rw wanted (ap (λ zs. x ∷ zs) rest)
      | inr other ↦ rw other rest
    ]

matching_in_transactions_flat :
    (filter : FilterQuery) (txs : List BlockTransaction)
    → matching_in_transactions filter txs ≡ matching_of filter (events_in_transactions txs)
unfolding matching_in_transactions matching_of
matching_in_transactions_flat filter [] = refl
matching_in_transactions_flat filter (tx ∷ txs) =
    rw (matching_in_transactions_flat filter txs)
      (sym (matching_of-append filter (events_of tx) (events_in_transactions txs)))

pub matching_in_mini_blocks_flat :
    (filter : FilterQuery) (mbs : List MiniBlock)
    → matching_in_mini_blocks filter mbs ≡ matching_of filter (events_in_mini_blocks mbs)
unfolding matching_in_mini_blocks matching_of
matching_in_mini_blocks_flat filter [] = refl
matching_in_mini_blocks_flat filter (mb ∷ mbs) = rw (matching_in_mini_blocks_flat filter mbs) (
    rw (matching_in_transactions_flat filter mb.transactions) (
      sym (
        matching_of-append filter (events_in_transactions mb.transactions)
          (events_in_mini_blocks mbs))))
