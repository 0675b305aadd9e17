-- ===== src/NonceHandlerV3/Sending/Examples.antt =====
-- Two transactions that are sent, of which the second is answered first.
use mx_sdk_erdgo.Prelude.{ℕ, ◌≡◌, ◌↔◌, refl, String, Option, none, some, List, [], ◌∷◌, arith, at}
use mx_sdk_erdgo.Prelude.Exec.{Error, ok, external}
use mx_sdk_erdgo.Chain.{Address, FrontendTransaction, PubkeyConverter}
use mx_sdk_erdgo.ExampleChain.{tx_of}
use mx_sdk_erdgo.NonceHandlerV3.Sending.{Outcome, responded, cancelled, Started, send_transactions}
use mx_sdk_erdgo.NonceHandlerV3.Sending.Order.{HasNoErrors}
use mx_sdk_erdgo.NonceHandlerV3.Sending.Returned.{Senders, provided, send_transactions-Settled}

abbrev converter : PubkeyConverter
converter = record { decode = λ s. ok (1 ∷ 2 ∷ []); encode = λ bs. ok "alice" }

abbrev txs : List (FrontendTransaction × Address)
txs = (tx_of 1 "1", 1 ∷ 2 ∷ []) ∷ (tx_of 2 "2", 1 ∷ 2 ∷ []) ∷ []

abbrev goroutine : ℕ → FrontendTransaction → Started
goroutine i tx = record { idx = i; address = 1 ∷ 2 ∷ []; tx_copy = tx }

abbrev ends : List (Started × Outcome)
ends =
    (goroutine 1 (tx_of 2 "2"), cancelled (external "timeout"))
    ∷ (goroutine 0 (tx_of 1 "1"), responded (record { tx_hash = "h"; error = none }))
    ∷ []

txs-Senders : Senders converter txs
txs-Senders = (refl, (refl, tt))

send_transactions-Settled_example :
    (hashes : List String) × (error : Option Error) × ((send_transactions converter
        (λ started. ends)
        (provided txs)
        []).0
      ≡ ok (hashes, error))
    × (at hashes 0 ≡ some "h")
    × ((error ≡ none) ↔ HasNoErrors ends)
send_transactions-Settled_example =
    send_transactions-Settled converter (λ started. ends) txs []
      ((goroutine 1 (tx_of 2 "2"), cancelled (external "timeout")) ∷ []) []
      (goroutine 0 (tx_of 1 "1")) (responded (record { tx_hash = "h"; error = none })) txs-Senders
      refl ((λ e. omega arith), tt) tt (omega arith)
