-- ===== src/Worker/Answers.antt =====
-- Over any interleaving every channel gets one response, and the least nonce is sent first.
use mx_sdk_erdgo.Prelude.{
  ℕ, ◌+◌, ◌≡◌, refl, ap, ◌∙◌, true, false, Option-cases, inl, inr, some, List, [], ◌∷◌, arith,
  amount-perm, ltb, ◌==◌, nat_eq, if◌then◌else◌,
}
use mx_sdk_erdgo.Prelude.Exec.{Error}
use mx_sdk_erdgo.Dict.{Dict, lookup, delete-HasUniqueKeys}
use mx_sdk_erdgo.Dict.Entries.{amount-delete, lookup-amount}
use mx_sdk_erdgo.Chain.{FrontendTransaction}
use mx_sdk_erdgo.Heap.Order.{Gives}
use mx_sdk_erdgo.Worker.{
  TransactionResponse, at_select, stopped, holds, sends, TransactionWorker, new_transaction_worker,
  add_transaction, next_transaction, retrieve_channel, respond_all, close_all_channels, Step, adds,
  takes, retrieves, responds, closes, Reachable, made, further,
}
use mx_sdk_erdgo.Worker.Sound.{
  held, sending, nil_channels, is_stopped, channels_at, responses_at, pending, IsSound, Gives-known,
  add_transaction-IsSound, Next, least, next_transaction-Next,
}

takes-IsSound :
    (tx : FrontendTransaction) (tw next : TransactionWorker)
    → IsSound tw
    → tw.position ≡ at_select
    → Next tw (some tx, next)
    → IsSound (record next { position = holds tx })
takes-IsSound tx tw _ s idle (least _ tq order same low) = record {
  order = order;
  unique = s.unique;
  scheduled = λ n.
      let fewer = amount-perm (λ t. t.nonce == n) same in
      let before = s.scheduled n in
      let none_held : held n tw.position ≡ 0 = ap (held n) idle in ground arith;
  answered = λ c.
      let before = s.answered c in
      let none_sending : sending c tw.position ≡ 0 = ap (sending c) idle in ground arith;
  ended = s.ended ∙ ap is_stopped idle;
  no_nil = refl;
}

-- The channel of a transaction that the goroutine has taken is in the map.
held-lookup :
    (tx : FrontendTransaction) (tw : TransactionWorker)
    → IsSound tw
    → tw.position ≡ holds tx
    → (c : ℕ) × (lookup tw.responses_channels tx.nonce ≡ some c)
held-lookup tx tw s busy = elim (Option-cases (lookup tw.responses_channels tx.nonce)) [
  | inr (c, present) ↦ (c, present)
  | inl absent ↦
      let no_key = lookup-amount tw.responses_channels tx.nonce absent in
      let before = s.scheduled tx.nonce in
      let one_held : held tx.nonce tw.position ≡ 1 = ap (held tx.nonce) busy ∙ ground arith in
      absurd (omega arith)
]

retrieves-IsSound :
    (tx : FrontendTransaction) (tw : TransactionWorker)
    → IsSound tw
    → tw.position ≡ holds tx
    → IsSound (record (retrieve_channel tx.nonce tw).1 {
      position = sends tx (retrieve_channel tx.nonce tw).0;
    })
unfolding retrieve_channel
retrieves-IsSound tx tw s busy =
    let (d, present) = held-lookup tx tw s busy in
    let working : tw.closed ≡ false = s.ended ∙ ap is_stopped busy in
    record {
      order = s.order;
      unique = delete-HasUniqueKeys tw.responses_channels tx.nonce s.unique;
      scheduled = λ n.
          let fewer =
            amount-delete (λ (j, c). j == n) tw.responses_channels tx.nonce d s.unique present in
          let before = s.scheduled n in
          let one_held : held n tw.position ≡ (if tx.nonce == n then 1 else 0) = ap (held n) busy in
          ground arith;
      answered = λ c.
          let fewer =
            amount-delete (λ (j, a). a == c) tw.responses_channels tx.nonce d s.unique present in
          let before = s.answered c in
          let none_sending : sending c tw.position ≡ 0 = ap (sending c) busy in
          let now : sending c (sends tx (lookup tw.responses_channels tx.nonce))
              ≡ (if d == c then 1 else 0) =
            ap (λ o. sending c (sends tx o)) present in
          ground arith;
      ended = working;
      no_nil = ap (λ o. nil_channels (sends tx o)) present;
    }

responds-IsSound :
    (tx : FrontendTransaction) (d : ℕ) (response : TransactionResponse) (tw : TransactionWorker)
    → IsSound tw
    → tw.position ≡ sends tx (some d)
    → IsSound (record tw { responses = (d, response) ∷ tw.responses; position = at_select })
responds-IsSound tx d response tw s busy = record {
  order = s.order;
  unique = s.unique;
  scheduled = λ n.
      let before = s.scheduled n in
      let none_held : held n tw.position ≡ 0 = ap (held n) busy in omega arith;
  answered = λ c.
      let before = s.answered c in
      let one : sending c tw.position ≡ (if d == c then 1 else 0) = ap (sending c) busy in
      ground arith;
  ended = s.ended ∙ ap is_stopped busy;
  no_nil = refl;
}

responses_at-respond_all :
    (e : Error) (m : Dict ℕ ℕ) (responses : List (ℕ × TransactionResponse)) (c : ℕ)
    → responses_at c (respond_all e m responses) ≡ channels_at c m + responses_at c responses
unfolding respond_all
responses_at-respond_all e [] responses c = omega arith
responses_at-respond_all e ((j, d) ∷ m) responses c =
    ground (arith, responses_at-respond_all e m responses c)

closes-IsSound :
    (e : Error) (tw : TransactionWorker)
    → IsSound tw
    → tw.position ≡ at_select
    → IsSound (record (close_all_channels e tw) { position = stopped })
unfolding close_all_channels
closes-IsSound e tw s idle = record {
  order = s.order;
  unique = s.unique;
  scheduled = λ n.
      let before = s.scheduled n in
      let none_held : held n tw.position ≡ 0 = ap (held n) idle in omega arith;
  answered = λ c.
      let before = s.answered c in
      let working : tw.closed ≡ false = s.ended ∙ ap is_stopped idle in
      let none_sending : sending c tw.position ≡ 0 = ap (sending c) idle in
      let all = responses_at-respond_all e tw.responses_channels tw.responses c in ground arith;
  ended = refl;
  no_nil = refl;
}

Step-IsSound : {tw tw' : TransactionWorker} → Step tw tw' → IsSound tw → IsSound tw'
Step-IsSound {tw = tw} (adds tx c e) s = Gives-known (add_transaction-IsSound tx tw s) e
Step-IsSound {tw = tw} (takes tx next idle e f) s =
    rw f (takes-IsSound tx tw next s idle (Gives-known (next_transaction-Next tw s.order) e))
Step-IsSound {tw = tw} (retrieves tx busy f) s = rw f (retrieves-IsSound tx tw s busy)
Step-IsSound {tw = tw} (responds tx c response busy f) s =
    rw f (responds-IsSound tx c response tw s busy)
Step-IsSound {tw = tw} (closes e idle f) s = rw f (closes-IsSound e tw s idle)

Reachable-IsSound : {tw : TransactionWorker} → Reachable tw → IsSound tw
unfolding new_transaction_worker
Reachable-IsSound made = record {
  order = λ c p q. absurd (omega arith);
  unique = tt;
  scheduled = λ n. refl;
  answered = λ c. ground arith;
  ended = refl;
  no_nil = refl;
}
Reachable-IsSound (further r step) = Step-IsSound step (Reachable-IsSound r)

-- In any interleaving of callers with the goroutine: a channel that was made has got one response, or it
-- waits for one in the map or in the goroutine's hands, never both and never more; no other channel has
-- got any. So no send blocks, for lack of room or on a nil channel.
pub Reachable-pending :
    (tw : TransactionWorker) (c : ℕ)
    → Reachable tw
    → (responses_at c tw.responses + pending c tw ≡ (if ltb c tw.channels then 1 else 0))
      × (nil_channels tw.position ≡ 0)
Reachable-pending tw c r = let s = Reachable-IsSound r in (s.answered c, s.no_nil)

-- Once the goroutine has ended every caller has got exactly one response, also those whose transaction
-- was not sent and those who come later.
pub stopped-responses_at :
    (tw : TransactionWorker) (c : ℕ)
    → Reachable tw
    → tw.position ≡ stopped
    → responses_at c tw.responses ≡ (if ltb c tw.channels then 1 else 0)
stopped-responses_at tw c r over =
    let s = Reachable-IsSound r in
    let done : tw.closed ≡ true = s.ended ∙ ap is_stopped over in
    let none_sending : sending c tw.position ≡ 0 = ap (sending c) over in
    let all = s.answered c in ground arith

-- In any reachable state `AddTransaction` and `nextTransaction` return: neither panics, and their loops
-- end. `nextTransaction` gives nil for an empty queue, and otherwise a transaction with the least nonce
-- of those in the queue, and leaves the others.
pub Reachable-returns :
    (tw : TransactionWorker) (tx : FrontendTransaction)
    → Reachable tw
    → Gives (λ (c, tw'). Reachable tw') (add_transaction tx tw)
      × Gives (Next tw) (next_transaction tw)
Reachable-returns tw tx r =
    let s = Reachable-IsSound r in
    let ((c, tw'), e, sound) = add_transaction-IsSound tx tw s in
    (((c, tw'), e, further r (adds tx c e)), next_transaction-Next tw s.order)
