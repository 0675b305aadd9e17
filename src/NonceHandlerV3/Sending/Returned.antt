-- ===== src/NonceHandlerV3/Sending/Returned.antt =====
-- The goroutines that `SendTransactions` starts, and what its callers get.
use mx_sdk_erdgo.Prelude.{
  ℕ, zero, suc, ◌+◌, ◌<◌, ◌≡◌, ◌↔◌, refl, ap, ◌∙◌, String, Option, none, some, List, [], ◌∷◌, ◌++◌,
  arith, All, length, at,
}
use mx_sdk_erdgo.Prelude.Exec.{Error, Result, ok, err, panic, nil_transaction}
use mx_sdk_erdgo.Prelude.Success.{differ_err, differ_panic}
use mx_sdk_erdgo.Chain.{Address, FrontendTransaction, PubkeyConverter}
use mx_sdk_erdgo.Handlers.{get_or_create}
use mx_sdk_erdgo.NonceHandlerV3.Transactions.{NonceTransactionsHandler}
use mx_sdk_erdgo.NonceHandlerV3.Sending.{
  Outcome, Started, Group, wait, start_sends, start_with, new_hashes, conclude, send_transactions,
}
use mx_sdk_erdgo.NonceHandlerV3.Sending.Order.{
  hash_of, put_hash, HasNoErrors, AreOthers, wait-Settled,
}

-- A list of transactions with the addresses of their senders.
abbrev pub Senders : PubkeyConverter → List (FrontendTransaction × Address) → Type 0
Senders converter = All (λ t. converter.decode t.0.sender ≡ ok t.1)

abbrev pub provided : List (FrontendTransaction × Address) → List (Option FrontendTransaction)
provided [] = []
provided ((tx, address) ∷ txs) = some tx ∷ provided txs

-- The goroutines of these transactions, with indices from one on.
abbrev pub goroutines : ℕ → List (FrontendTransaction × Address) → List Started
goroutines i [] = []
goroutines i ((tx, address) ∷ txs) =
    record { idx = i; address = address; tx_copy = tx } ∷ goroutines (i + 1) txs

-- Transactions whose senders are addresses each start a goroutine with a copy of them, the first with index
-- `i`, and the next with the next. They do so too in front of a nil transaction, for which the loop
-- returns an error, while they go on.
start_sends-Started :
    (converter : PubkeyConverter) (txs : List (FrontendTransaction × Address)) (i : ℕ)
    (rest : List (Option FrontendTransaction)) (handlers : NonceTransactionsHandler)
    → Senders converter txs
    → ((start_sends converter i (provided txs) handlers).0 ≡ ok tt)
      × ((start_sends converter i (provided txs) handlers).1 ≡ goroutines i txs)
      × ((start_sends converter i (provided txs ++ (none ∷ rest)) handlers).0 ≡ err nil_transaction)
      × ((start_sends converter i (provided txs ++ (none ∷ rest)) handlers).1 ≡ goroutines i txs)
unfolding start_sends start_with
start_sends-Started converter [] i rest handlers senders = (refl, refl, refl, refl)
start_sends-Started converter ((tx, address) ∷ txs) i rest handlers (sender, senders) =
    let (a, b, c, d) =
      start_sends-Started converter txs (i + 1) rest (get_or_create _ address handlers).1 senders in
    rw sender (
      a,
      ap (λ started. record { idx = i; address = address; tx_copy = tx } ∷ started) b,
      c,
      ap (λ started. record { idx = i; address = address; tx_copy = tx } ∷ started) d,
    )

new_group : {A : Type 0} → List A → NonceTransactionsHandler → Group
new_group txs handlers = record { sent_hashes = new_hashes txs; error = none; handlers = handlers }

conclude-ok :
    (order : List Started → List (Started × Outcome)) (txs : List (Option FrontendTransaction))
    (x : Result (Unit {0}) × List Started × NonceTransactionsHandler)
    → x.0 ≡ ok tt
    → (conclude order (new_hashes txs) x).0
      ≡ ok (
        (wait (order x.1) (new_group txs x.2)).sent_hashes,
        (wait (order x.1) (new_group txs x.2)).error,
      )
unfolding new_group
conclude-ok order txs (ok u, started, handlers) e = refl
conclude-ok order txs (err x, started, handlers) e = differ_err x tt e
conclude-ok order txs (panic, started, handlers) e = differ_panic tt e

length-new_hashes : {A : Type 0} (txs : List A) → length (new_hashes txs) ≡ length txs
length-new_hashes [] = refl
length-new_hashes (tx ∷ txs) = let rest = length-new_hashes txs in omega arith

at-new_hashes :
    {A : Type 0} (txs : List A) (i : ℕ) → i < length txs → at (new_hashes txs) i ≡ some ""
at-new_hashes [] i lt = absurd (omega arith)
at-new_hashes (tx ∷ txs) zero lt = refl
at-new_hashes (tx ∷ txs) (suc i) lt = at-new_hashes txs i (omega arith)

length-provided : (txs : List (FrontendTransaction × Address)) → length (provided txs) ≡ length txs
length-provided [] = refl
length-provided (tx ∷ txs) = let rest = length-provided txs in omega arith

-- Where every transaction has the address of a sender, `SendTransactions` returns in whatever order the
-- goroutines end: in the place of one that has its index alone stands the hash of its own response, or
-- the empty text if that was an error, and there is an error exactly if one of them had one.
pub send_transactions-Settled :
    (converter : PubkeyConverter) (order : List Started → List (Started × Outcome))
    (txs : List (FrontendTransaction × Address)) (handlers : NonceTransactionsHandler)
    (before after : List (Started × Outcome)) (s : Started) (o : Outcome)
    → Senders converter txs
    → order (goroutines 0 txs) ≡ before ++ ((s, o) ∷ after)
    → AreOthers s.idx before
    → AreOthers s.idx after
    → s.idx < length txs
    → (hashes : List String) × (error : Option Error) × ((send_transactions converter order
          (provided txs)
          handlers).0
        ≡ ok (hashes, error))
      × (at hashes s.idx ≡ put_hash (hash_of o) (some ""))
      × ((error ≡ none) ↔ HasNoErrors (order (goroutines 0 txs)))
unfolding send_transactions new_group
send_transactions-Settled converter order txs handlers before after s o senders ends others others'
      lt =
    let (started_ok, started, early, early') =
      start_sends-Started converter txs 0 [] handlers senders in
    let x = start_sends converter 0 (provided txs) handlers in
    let group = new_group (provided txs) x.2 in
    let l = length-provided txs in
    let l' = length-new_hashes (provided txs) in
    let returned = conclude-ok order (provided txs) x started_ok in
    let (place, clean) = wait-Settled before after s o group others others' (omega arith) in
    let runs : order x.1 ≡ before ++ ((s, o) ∷ after) = ap order started ∙ ends in
    (
      (wait (order x.1) group).sent_hashes,
      (wait (order x.1) group).error,
      returned,
      ap (λ cs. at (wait cs group).sent_hashes s.idx) runs
          ∙ (place ∙ ap (put_hash (hash_of o)) (at-new_hashes (provided txs) s.idx (omega arith))),
      rw (runs, ends) ((λ e. (clean.0 e).1), λ h. clean.1 (refl, h)),
    )
