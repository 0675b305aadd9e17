-- ===== src/NonceHandlerV3/Transactions.antt =====
-- interactors/nonceHandlerV3/nonceTransactionsHandler.go: the grouping of transactions by sender,
-- and their nonces and gas prices. The state is the map of handlers.
use mx_sdk_erdgo.Prelude.{
  ℕ, ◌^◌, ◌≡◌, refl, ap, sym, append-nil, append_assoc, ◌⊎◌, inl, inr, Bool-cases, String,
  string_eq, Option, none, some, List, [], ◌∷◌, ◌++◌, ltb, ◌==◌, if◌then◌else◌,
}
use mx_sdk_erdgo.Prelude.Exec.{
  Result, ok, err, nil_proxy, nil_transaction, invalid_value, wrapped, Error, Exec, ◌>>=◌, pure,
  attempt, lift,
}
use text.Mathlib.TextEquality.{eq_iff}
use mx_sdk_erdgo.Dict.{Dict, lookup, insert, lookup-insert}
use mx_sdk_erdgo.Chain.{Address, FrontendTransaction, PubkeyConverter, Proxy}
use mx_sdk_erdgo.Handlers
use mx_sdk_erdgo.NonceHandlerV3.{AddressNonceHandler, new_handler, apply_nonce_and_gas_price}

abbrev pub NonceTransactionsHandler : Type 0
NonceTransactionsHandler = Dict Address AddressNonceHandler

abbrev pub minimum_interval_to_resend : ℕ
minimum_interval_to_resend = 10 ^ 6

pub new_nonce_transaction_handler : {P : Type 0} → Option P → ℕ → Result NonceTransactionsHandler
new_nonce_transaction_handler none interval = err nil_proxy
new_nonce_transaction_handler (some proxy) interval =
    if ltb interval minimum_interval_to_resend
    then err (wrapped "for intervalToSend in NewNonceTransactionHandlerV2" invalid_value)
    else ok []

-- `if !ok { transactionsPerAddress = make(…) }`
pub or_empty : Option (List FrontendTransaction) → List FrontendTransaction
or_empty none = []
or_empty (some txs) = txs

-- The group of a sender so far.
abbrev pub group_of : String → Dict String (List FrontendTransaction) → List FrontendTransaction
group_of sender groups = or_empty (lookup groups sender)

pub group_loop :
    List FrontendTransaction
    → Dict String (List FrontendTransaction)
    → Dict String (List FrontendTransaction)
group_loop [] groups = groups
group_loop (tx ∷ txs) groups =
    group_loop txs (insert groups tx.sender (group_of tx.sender groups ++ tx ∷ []))

-- No transaction of the list is nil.
unfoldable pub filter_transactions_by_sender_address :
    List FrontendTransaction → Dict String (List FrontendTransaction)
unfolding group_loop
filter_transactions_by_sender_address txs = group_loop txs []

-- The transactions of a sender, in their order.
pub sent_by : String → List FrontendTransaction → List FrontendTransaction
sent_by sender [] = []
sent_by sender (tx ∷ txs) =
    if tx.sender == sender then tx ∷ sent_by sender txs else sent_by sender txs

module _ (sender : String) where
  group_of-insert :
      (tx : FrontendTransaction) (groups : Dict String (List FrontendTransaction))
      → group_of sender (insert groups tx.sender (group_of tx.sender groups ++ tx ∷ [])) ≡ (
          if tx.sender == sender then group_of sender groups ++ tx ∷ [] else group_of sender groups)
  unfolding or_empty
  group_of-insert tx groups = elim (Bool-cases (tx.sender == sender)) [
    | inl same ↦
        let e = (eq_iff tx.sender sender).0 same in
        rw (lookup-insert groups tx.sender sender)
          (rw same (ap (λ s. group_of s groups ++ tx ∷ []) e))
    | inr other ↦ rw (lookup-insert groups tx.sender sender) (rw other refl)
  ]

  group_of-loop :
      (txs : List FrontendTransaction) (groups : Dict String (List FrontendTransaction))
      → group_of sender (group_loop txs groups) ≡ group_of sender groups ++ sent_by sender txs
  unfolding group_loop sent_by
  group_of-loop [] groups = sym (append-nil _)
  group_of-loop (tx ∷ txs) groups =
      rw (group_of-loop txs _, group_of-insert tx groups)
        (elim (Bool-cases (tx.sender == sender)) [
          | inl same ↦ rw (same, append_assoc)
          | inr other ↦ rw other
        ])

-- The loop groups the transactions by sender: the group of every sender holds exactly its
-- transactions, in their order.
pub group_of-filter :
    (sender : String) (txs : List FrontendTransaction)
    → group_of sender (filter_transactions_by_sender_address txs) ≡ sent_by sender txs
unfolding filter_transactions_by_sender_address or_empty lookup
group_of-filter sender txs = group_of-loop sender txs []

module _ {W : Type 0} (proxy : Proxy W) (converter : PubkeyConverter) where
  go_on :
      Dict String (List FrontendTransaction)
      → Exec (NonceTransactionsHandler × W) (Dict String (List FrontendTransaction) × Option Error)
      → String
      → List FrontendTransaction × Option Error
      → Exec (NonceTransactionsHandler × W) (Dict String (List FrontendTransaction) × Option Error)
  go_on groups rest sender (txs, some e) = pure ((sender, txs) ∷ groups, some e)
  go_on groups rest sender (txs, none) = do (groups', e) ← rest; pure ((sender, txs) ∷ groups', e)

  -- One round of the loop, before the rest of them.
  apply_group :
      String
      → List FrontendTransaction
      → Dict String (List FrontendTransaction)
      → Exec (NonceTransactionsHandler × W) (Dict String (List FrontendTransaction) × Option Error)
      → Address ⊎ Error
      → Exec (NonceTransactionsHandler × W) (Dict String (List FrontendTransaction) × Option Error)
  unfolding go_on
  apply_group sender txs groups rest (inr e) = pure ((sender, txs) ∷ groups, some e)
  apply_group sender txs groups rest (inl address) = do
    applied ← Handlers.on_handler new_handler address (apply_nonce_and_gas_price proxy txs)
    go_on groups rest sender applied

  -- The loop over the groups. An error ends it, and leaves the later groups as they are.
  pub apply_groups :
      Dict String (List FrontendTransaction)
      → Exec (NonceTransactionsHandler × W) (Dict String (List FrontendTransaction) × Option Error)
  unfolding apply_group
  apply_groups [] = pure ([], none)
  apply_groups ((sender, txs) ∷ groups) = do
    address ← attempt (lift (converter.decode sender))
    apply_group sender txs groups (apply_groups groups) address

  -- `ApplyNonceAndGasPrice`. A call with no transaction at all passes a nil slice.
  pub apply :
      List FrontendTransaction
      → Exec (NonceTransactionsHandler × W) (Dict String (List FrontendTransaction) × Option Error)
  unfolding apply_groups
  apply [] = pure ([], some nil_transaction)
  apply (tx ∷ txs) = apply_groups (filter_transactions_by_sender_address (tx ∷ txs))
