-- ===== src/Workflows/WalletTracker/Rounds.antt =====
-- A round of the tracker processes the hyper blocks in their order, each one once, and stops at the
-- first that cannot be fetched; the next round goes on with that one.
use mx_sdk_erdgo.Prelude.{
  ℕ, zero, suc, ◌+◌, ◌-◌, ◌%◌, ◌≤◌, ◌<◌, ◌≡◌, refl, sym, ap, ◌∙◌, String, Bool, ◌⊎◌, inl, inr,
  Option, List, [], ◌∷◌, ◌++◌, arith,
}
use mx_sdk_erdgo.Prelude.Exec.{Exec, Result, ok, err, panic, ◌>>=◌, lift}
use mx_sdk_erdgo.BigInt.{ℤ}
use mx_sdk_erdgo.Chain.{u64}
use mx_sdk_erdgo.Workflows.AddressesAccumulator.{AddressesAccumulator}
use mx_sdk_erdgo.Workflows.WalletTracker.{
  TransactionOnNetwork, HyperBlock, WalletTracker, ProxyHandler, LastProcessedNonceHandler,
  notified, process_hyper_block, fetch_and_process_hyper_block, mark_processed, process_from,
  fetch_and_process_hyper_blocks,
}
use mx_sdk_erdgo.Workflows.WalletTracker.Deposits.{
  push_all, deposits, receivers, notify_all, having, process_transactions-deposits,
}

-- What the tracker relies on: a nonce has one block, only `ProcessedNonce` changes the last processed
-- nonce, and it stores its argument.
pub record Collaborators {W : Type 0} (proxy : ProxyHandler W)
    (nonces : LastProcessedNonceHandler W) (handler : Option (TransactionOnNetwork → W → W))
    : Type 0 where
  pub block : ℕ → HyperBlock
  pub fetched :
      (n : ℕ) (w : W) (b : HyperBlock) → (proxy.get_hyper_block_by_nonce n w).0 ≡ ok b → b ≡ block n
  pub fetch_last :
      (n : ℕ) (w : W)
      → nonces.get_last_processed_nonce (proxy.get_hyper_block_by_nonce n w).1
        ≡ nonces.get_last_processed_nonce w
  pub latest_last :
      (w : W)
      → nonces.get_last_processed_nonce (proxy.get_latest_hyper_block_nonce w).1
        ≡ nonces.get_last_processed_nonce w
  pub notified_last :
      (tx : TransactionOnNetwork) (w : W)
      → nonces.get_last_processed_nonce (notified handler tx w) ≡ nonces.get_last_processed_nonce w
  pub processed_last :
      (n : ℕ) (w : W) → nonces.get_last_processed_nonce (nonces.processed_nonce n w) ≡ n

receivers-append :
    (xs ys : List TransactionOnNetwork) → receivers (xs ++ ys) ≡ receivers xs ++ receivers ys
receivers-append [] ys = refl
receivers-append (x ∷ xs) ys = rw (receivers-append xs ys) refl

push_all-append :
    (xs ys : List String) (aa : AddressesAccumulator)
    → push_all (xs ++ ys) aa ≡ push_all ys (push_all xs aa)
unfolding push_all
push_all-append [] ys aa = refl
push_all-append (x ∷ xs) ys aa = push_all-append xs ys _

bind_assoc :
    {S A B C : Type 0} (r : Result A) (f : A → Exec S B) (g : B → Exec S C) (s : S)
    → ((lift r >>= f) >>= g) s ≡ (lift r >>= λ a. f a >>= g) s
bind_assoc (ok a) f g s = refl
bind_assoc (err e) f g s = refl
bind_assoc panic f g s = refl

module _ {W : Type 0} (is_trackable : String → Bool) (proxy : ProxyHandler W)
    (nonces : LastProcessedNonceHandler W) where
  abbrev pub last : W → ℕ
  last = nonces.get_last_processed_nonce

  -- The transactions of `k` blocks from `n` on.
  unfoldable pub transactions_from : (ℕ → HyperBlock) → ℕ → ℕ → List TransactionOnNetwork
  transactions_from block n zero = []
  transactions_from block n (suc k) = (block n).transactions ++ transactions_from block (n + 1) k

  -- A fetch without a block, and what is reported then.
  abbrev pub FailsAs : Result HyperBlock → Result (Unit {0}) → Type 0
  FailsAs (ok b) r = ⊥
  FailsAs (err e) r = r ≡ err e
  FailsAs panic r = r ≡ panic

  -- From a world with `processed` as its last processed nonce the block behind that is asked for, which
  -- fails; that is reported, and nothing is done any more.
  abbrev pub StopsBehind : ℕ → Result (Unit {0}) × (WalletTracker W × W) → Type 0
  StopsBehind processed after =
      (before : W) × (last before ≡ processed)
      × (after.1.1 ≡ (proxy.get_hyper_block_by_nonce (processed + 1) before).1)
      × FailsAs (proxy.get_hyper_block_by_nonce (processed + 1) before).0 after.0

  -- Of `wanted` blocks the first `blocks` were processed: all of them, or the fetch of the next one has
  -- failed, which is reported.
  pub record Progress (block : ℕ → HyperBlock) (wanted : ℕ) (wt : WalletTracker W) (w : W)
      (after : Result (Unit {0}) × (WalletTracker W × W)) : Type 0 where
    pub blocks : ℕ
    pub last_processed : last after.1.1 ≡ last w + blocks
    pub accumulated :
        after.1.0
        ≡ having wt
            (deposits is_trackable wt.minimum_balance (transactions_from block (last w + 1) blocks))
    pub outcome :
        ((blocks ≡ wanted) × (after.0 ≡ ok tt))
        ⊎ ((blocks < wanted) × StopsBehind (last w + blocks) after)

  deposits-append :
      (minimum : ℤ) (xs ys : List TransactionOnNetwork)
      → deposits is_trackable minimum (xs ++ ys)
        ≡ deposits is_trackable minimum xs ++ deposits is_trackable minimum ys
  unfolding deposits
  deposits-append minimum [] ys = refl
  deposits-append minimum (x ∷ xs) ys = ground (arith, deposits-append minimum xs ys)

  having-append :
      (wt : WalletTracker W) (xs ys : List TransactionOnNetwork)
      → having wt (deposits is_trackable wt.minimum_balance (xs ++ ys))
        ≡ having
            (having wt (deposits is_trackable wt.minimum_balance xs))
            (deposits is_trackable wt.minimum_balance ys)
  having-append wt xs ys =
      let xs' = deposits is_trackable wt.minimum_balance xs in
      let ys' = deposits is_trackable wt.minimum_balance ys in
      rw (deposits-append wt.minimum_balance xs ys) (
        rw (receivers-append xs' ys')
          (rw (push_all-append (receivers xs') (receivers ys') wt.accumulator) refl))

  notify_all-last :
      (handler : Option (TransactionOnNetwork → W → W))
      → Collaborators proxy nonces handler
      → (txs : List TransactionOnNetwork) (w : W) → last (notify_all handler txs w) ≡ last w
  unfolding notify_all
  notify_all-last handler c [] w = refl
  notify_all-last handler c (tx ∷ txs) w =
      notify_all-last handler c txs (notified handler tx w) ∙ c.notified_last tx w

  module _ (handler : Option (TransactionOnNetwork → W → W))
      (c : Collaborators proxy nonces handler) where
    abbrev rest_of_loop : ℕ → ℕ → HyperBlock → Exec (WalletTracker W × W) (Unit {0})
    rest_of_loop wanted nonce b = process_hyper_block is_trackable b >>= λ _.
        mark_processed is_trackable proxy nonces nonce >>= λ _.
        process_from is_trackable proxy nonces wanted ((nonce + 1) % u64)

    -- One block more in front of a run from the state behind it.
    Progress-block :
        (wanted nonce : ℕ) (wt : WalletTracker W) (w w3 : W)
        (after : Result (Unit {0}) × (WalletTracker W × W))
        → last w + 1 ≡ nonce
        → last w3 ≡ nonce
        → Progress c.block wanted
            (having wt (deposits is_trackable wt.minimum_balance (c.block nonce).transactions))
            w3
            after
        → Progress c.block (suc wanted) wt w after
    unfolding transactions_from
    Progress-block wanted nonce wt w w3 after next done p = record {
      blocks = suc p.blocks;
      last_processed = let e = p.last_processed in omega arith;
      accumulated =
          p.accumulated
          ∙ rw done (
              rw next (
                sym (
                  having-append wt (c.block nonce).transactions
                    (transactions_from c.block (nonce + 1) p.blocks))));
      outcome = elim (p.outcome) [
        | inl (e, r) ↦ inl (omega arith, r)
        | inr (lt, (before, at, end, fails)) ↦
            let same : last w3 + p.blocks ≡ last w + suc p.blocks = omega arith in
            inr (omega arith, rw (sym same) (before, at, end, fails))
      ];
    }

    kept_by_fetch :
        (nonce : ℕ) (w w' : W) (r : Result HyperBlock)
        → proxy.get_hyper_block_by_nonce nonce w ≡ (r, w')
        → last w' ≡ last w + 0
    kept_by_fetch nonce w w' r asked =
        let same : last w' ≡ last w = sym (ap (λ p. last p.1) asked) ∙ c.fetch_last nonce w in
        omega arith

    failed_at :
        (nonce : ℕ) (w w' : W) (r : Result HyperBlock) (reported : Result (Unit {0}))
        (wt : WalletTracker W)
        → last w + 1 ≡ nonce
        → proxy.get_hyper_block_by_nonce nonce w ≡ (r, w')
        → FailsAs r reported
        → StopsBehind (last w + 0) (reported, (wt, w'))
    failed_at nonce w w' r reported wt next asked fails =
        let at : last w + 0 + 1 ≡ nonce = omega arith in
        (w, omega arith, rw at (rw asked refl), rw at (rw asked fails))

    -- The rest of a turn of the loop, behind the fetch of its block.
    process_fetched-Progress :
        (wanted nonce : ℕ) (wt : WalletTracker W) (w w' : W) (r : Result HyperBlock)
        → wt.handler_new_deposit_transaction ≡ handler
        → last w + 1 ≡ nonce
        → nonce + suc wanted < u64
        → proxy.get_hyper_block_by_nonce nonce w ≡ (r, w')
        → ((b : HyperBlock) → r ≡ ok b → b ≡ c.block nonce)
        → ((wt3 : WalletTracker W) (w3 : W)
            → wt3.handler_new_deposit_transaction ≡ handler
            → last w3 ≡ nonce
            → Progress c.block wanted wt3 w3
                (process_from is_trackable proxy nonces wanted (nonce + 1) (wt3, w3)))
        → Progress c.block (suc wanted) wt w ((lift r >>= rest_of_loop wanted nonce) (wt, w'))
    unfolding mark_processed process_hyper_block transactions_from deposits push_all
    process_fetched-Progress wanted nonce wt w w' (err e) same next fits asked known ih = record {
      blocks = 0;
      last_processed = kept_by_fetch nonce w w' _ asked;
      accumulated = refl;
      outcome = inr (omega arith, failed_at nonce w w' (err e) (err e) wt next asked refl);
    }
    process_fetched-Progress wanted nonce wt w w' panic same next fits asked known ih = record {
      blocks = 0;
      last_processed = kept_by_fetch nonce w w' _ asked;
      accumulated = refl;
      outcome = inr (omega arith, failed_at nonce w w' panic panic wt next asked refl);
    }
    process_fetched-Progress wanted nonce wt w w' (ok b) same next fits asked known ih =
        let ds = deposits is_trackable wt.minimum_balance b.transactions in
        let w2 = notify_all wt.handler_new_deposit_transaction ds w' in
        let w3 = nonces.processed_nonce nonce w2 in
        let wraps : (nonce + 1) % u64 ≡ nonce + 1 = omega arith in
        rw (process_transactions-deposits is_trackable b.transactions wt w') (
          rw wraps (
            Progress-block wanted nonce wt w w3 _ next (c.processed_last nonce w2)
              (rw (sym (known b refl)) (ih (having wt ds) w3 same (c.processed_last nonce w2)))))

    process_from-Progress :
        (wanted nonce : ℕ) (wt : WalletTracker W) (w : W)
        → wt.handler_new_deposit_transaction ≡ handler
        → last w + 1 ≡ nonce
        → nonce + wanted < u64
        → Progress c.block wanted wt w (process_from is_trackable proxy nonces wanted nonce (wt, w))
    unfolding process_from fetch_and_process_hyper_block transactions_from deposits push_all
    process_from-Progress zero nonce wt w same next fits = record {
      blocks = 0;
      last_processed = omega arith;
      accumulated = refl;
      outcome = inl (refl, refl);
    }
    process_from-Progress (suc wanted) nonce wt w same next fits =
        let (r, w') = proxy.get_hyper_block_by_nonce nonce w in
        rw
          (bind_assoc r (process_hyper_block is_trackable)
            (λ x. mark_processed is_trackable proxy nonces nonce >>= λ y.
              process_from is_trackable proxy nonces wanted ((nonce + 1) % u64))
            (wt, w'))
          (process_fetched-Progress wanted nonce wt w w' r same next fits refl (c.fetched nonce w)
            (λ wt3 w3 same3 next3.
              process_from-Progress wanted (nonce + 1) wt3 w3 same3 (omega arith) (omega arith)))

  -- A round processes the blocks behind the last processed one, up to the network's, in their order,
  -- where the network's nonce is not behind and is below 2^64 - 1. It processes all and succeeds, or
  -- the fetch of the next one fails, with the error or the panic that the round then ends with. The
  -- last processed nonce tells how far it has come, and the accumulator has got exactly the receivers
  -- of the deposits in the blocks that were processed.
  pub fetch_and_process_hyper_blocks-Progress :
      (wt : WalletTracker W) (w : W)
      (c : Collaborators proxy nonces wt.handler_new_deposit_transaction) (network : ℕ) (w' : W)
      → proxy.get_latest_hyper_block_nonce w ≡ (ok network, w')
      → last w ≤ network
      → network + 1 < u64
      → Progress c.block
          (network - last w)
          wt
          w
          (fetch_and_process_hyper_blocks is_trackable proxy nonces (wt, w))
  unfolding fetch_and_process_hyper_blocks
  fetch_and_process_hyper_blocks-Progress wt w c network w' latest le fits =
      let kept : last w' ≡ last w = sym (ap (λ p. last p.1) latest) ∙ c.latest_last w in
      let first : (last w + 1) % u64 ≡ last w + 1 = omega arith in
      let count : network + 1 - (last w + 1) ≡ network - last w = omega arith in
      let p =
        process_from-Progress wt.handler_new_deposit_transaction c (network - last w) (last w + 1)
          wt w' refl (omega arith) (omega arith) in
      rw latest (rw first (rw count (from_same_last p kept)))
    where
      from_same_last :
          {block : ℕ → HyperBlock} {wanted : ℕ} {w' : W}
          {after : Result (Unit {0}) × (WalletTracker W × W)}
          → Progress block wanted wt w' after
          → last w' ≡ last w
          → Progress block wanted wt w after
      from_same_last p e = record {
        blocks = p.blocks;
        last_processed = p.last_processed ∙ rw e refl;
        accumulated = p.accumulated ∙ rw e refl;
        outcome = rw (sym e) p.outcome;
      }
