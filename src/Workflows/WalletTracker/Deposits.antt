-- ===== src/Workflows/WalletTracker/Deposits.antt =====
-- What the tracker does with the transactions of a block: an independent description by a filter.
use mx_sdk_erdgo.Prelude.{
  ℕ, suc, max, ◌≡◌, refl, String, Bool, false, not, ◌&&◌, ◌||◌, Bool-cases, Option-cases, inl, inr,
  Option, none, some, List, [], ◌∷◌, arith, ◌==◌, string_eq, if◌then◌else◌,
}
use mx_sdk_erdgo.Dict.{Dict, insert}
use mx_sdk_erdgo.BigInt.{ℤ, is_less, set_string}
use mx_sdk_erdgo.Workflows.AddressesAccumulator.{
  AddressesAccumulator, new_addresses_accumulator, keys, push, pop,
}
use mx_sdk_erdgo.Workflows.WalletTracker.{
  TransactionOnNetwork, WalletTracker, notified, process_value, process_transaction,
  process_transactions,
}

unfoldable pub push_all : List String → AddressesAccumulator → AddressesAccumulator
push_all [] aa = aa
push_all (a ∷ pushed) aa = push_all pushed (push a aa)

abbrev pub count : String → List String → ℕ
count a [] = 0
count a (b ∷ bs) = if b == a then suc (count a bs) else count a bs

abbrev pub contains : String → List String → Bool
contains a [] = false
contains a (b ∷ bs) = (b == a) || contains a bs

count-insert :
    (m : Dict String (Unit {0})) (b a : String)
    → count a (keys (insert m b tt))
      ≡ (if b == a then max 1 (count a (keys m)) else count a (keys m))
unfolding insert
count-insert [] b a = ground arith
count-insert ((c, tt) ∷ m) b a = ground (
  arith,
  count-insert m b a,
  string_eq.same_iff c b,
  string_eq.same_iff c a,
  string_eq.same_iff b a,
)

count-push_all :
    (pushed : List String) (aa : AddressesAccumulator) (a : String)
    → count a (keys (push_all pushed aa).addresses_map) ≡ (
        if contains a pushed
        then max 1 (count a (keys aa.addresses_map))
        else count a (keys aa.addresses_map))
unfolding push_all push
count-push_all [] aa a = refl
count-push_all (b ∷ pushed) aa a =
    ground (arith, count-push_all pushed (push b aa) a, count-insert aa.addresses_map b a)

-- An address that is pushed, however often, is popped once, and no other address is. A second pop
-- returns nothing.
pop-push_all :
    (pushed : List String) (a : String)
    → (count a (pop (push_all pushed new_addresses_accumulator)).0
        ≡ (if contains a pushed then 1 else 0))
      × ((pop (pop (push_all pushed new_addresses_accumulator)).1).0 ≡ [])
unfolding pop new_addresses_accumulator
pop-push_all pushed a =
    let e = count-push_all pushed new_addresses_accumulator a in (ground arith, refl)

abbrev pub has_minimum : ℤ → Option ℤ → Bool
has_minimum minimum none = false
has_minimum minimum (some value) = not (is_less value minimum)

abbrev pub receivers : List TransactionOnNetwork → List String
receivers [] = []
receivers (tx ∷ txs) = tx.receiver ∷ receivers txs

module _ (is_trackable : String → Bool) where
  -- A transfer to a tracked address of at least the minimum.
  unfoldable pub is_deposit : ℤ → TransactionOnNetwork → Bool
  is_deposit minimum tx = is_trackable tx.receiver && has_minimum minimum (set_string tx.value)

  unfoldable pub deposits : ℤ → List TransactionOnNetwork → List TransactionOnNetwork
  unfolding is_deposit
  deposits minimum [] = []
  deposits minimum (tx ∷ txs) =
      let rest = deposits minimum txs in if is_deposit minimum tx then tx ∷ rest else rest

module _ {W : Type 0} where
  unfoldable pub notify_all :
      Option (TransactionOnNetwork → W → W) → List TransactionOnNetwork → W → W
  notify_all handler [] w = w
  notify_all handler (tx ∷ txs) w = notify_all handler txs (notified handler tx w)

  -- The tracker that has accumulated the receivers of these deposits too.
  abbrev pub having : WalletTracker W → List TransactionOnNetwork → WalletTracker W
  having wt txs = record wt { accumulator = push_all (receivers txs) wt.accumulator }

module _ {W : Type 0} (is_trackable : String → Bool) where
  process_transaction_lem :
      (tx : TransactionOnNetwork) (wt : WalletTracker W) (w : W)
      → process_transaction is_trackable tx (wt, w) ≡ (
          if is_deposit is_trackable wt.minimum_balance tx
          then (
            record wt { accumulator = push tx.receiver wt.accumulator },
            notified wt.handler_new_deposit_transaction tx w,
          )
          else (wt, w))
  unfolding process_transaction is_deposit process_value
  process_transaction_lem tx wt w = elim (Option-cases (set_string tx.value)) [
    | inl invalid ↦ rw invalid (ground arith)
    | inr (value, e) ↦ rw e (ground arith)
  ]

  -- The transactions of a block are filtered: exactly those that transfer at least the minimum to a
  -- tracked address are notified of, in their order, and have their receiver accumulated.
  pub process_transactions-deposits :
      (txs : List TransactionOnNetwork) (wt : WalletTracker W) (w : W)
      → process_transactions is_trackable txs (wt, w) ≡ (
        having wt (deposits is_trackable wt.minimum_balance txs),
        notify_all wt.handler_new_deposit_transaction
            (deposits is_trackable wt.minimum_balance txs)
            w,
      )
  unfolding process_transactions deposits notify_all push_all
  process_transactions-deposits [] wt w = refl
  process_transactions-deposits (tx ∷ txs) wt w =
      elim (Bool-cases (is_deposit is_trackable wt.minimum_balance tx)) [
        | inl deposit ↦ rw (process_transaction_lem tx wt w) (
            rw deposit (
              process_transactions-deposits txs
                (record wt { accumulator = push tx.receiver wt.accumulator })
                (notified wt.handler_new_deposit_transaction tx w)))
        | inr other ↦
            rw (process_transaction_lem tx wt w) (rw other (process_transactions-deposits txs wt w))
      ]
