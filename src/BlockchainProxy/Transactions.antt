-- ===== src/BlockchainProxy/Transactions.antt =====
-- blockchain/proxy.go: what is sent.
pub mod Hashes
use mx_sdk_erdgo.Prelude.{ℕ, String, Option, none, some, List, map}
use mx_sdk_erdgo.Prelude.Exec.{Exec, Result, ok, err, panic, ◌>>=◌, ◌>>◌, pure, lift}
use mx_sdk_erdgo.Dict.{Dict, lookup}
use mx_sdk_erdgo.Chain.{Bytes, FrontendTransaction, Response}
use mx_sdk_erdgo.BigInt.{ℤ, is_less, int_eq}
use mx_sdk_erdgo.Sorting.{sort_slice}
use mx_sdk_erdgo.BaseProxy.{create_http_status_error}
use mx_sdk_erdgo.Endpoints.{send_transaction_path, send_multiple_transactions, cost_transaction}
use mx_sdk_erdgo.BlockchainProxy.{BlockchainProxy, Reply, content_of, post_json}

-- The error of a request that was made, whatever its status code.
unfoldable pub body_unless_failed : Response → Result Bytes
unfolding create_http_status_error
body_unless_failed response = elim (response.error) [
  | none ↦ ok response.buff
  | some e ↦ err (create_http_status_error (some e))
]

-- The map is read at a key that may be missing.
abbrev pub or_empty : Option String → String
or_empty none = ""
or_empty (some hash) = hash

abbrev pub indexes : Dict ℤ String → List ℤ
indexes txs_hashes = map (λ (index, hash). index) txs_hashes

-- The list of the indexes is in the order of the map, before it is sorted.
unfoldable pub post_process_send_multiple_txs_result : Dict ℤ String → List String
unfolding sort_slice lookup
post_process_send_multiple_txs_result txs_hashes =
    map (λ index. or_empty (lookup txs_hashes index)) (sort_slice is_less (indexes txs_hashes))

module _ {W : Type 0} (ep : BlockchainProxy W) where
  -- The status code is not looked at.
  unfoldable pub send_transaction :
      (FrontendTransaction → Result Bytes)
      → (Bytes → Result (Reply String))
      → FrontendTransaction
      → Exec W String
  unfolding body_unless_failed
  send_transaction marshal unmarshal tx = do
    body ← lift (marshal tx)
    buff ← (λ w.
        let (response, w') = ep.post_http send_transaction_path body w in
        (body_unless_failed response, w'))
    reply ← lift (unmarshal buff)
    lift (content_of reply)

  -- The reply carries the hashes by the indexes of their transactions.
  unfoldable pub send_transactions :
      (List FrontendTransaction → Result Bytes)
      → (Bytes → Result (Reply (Dict ℤ String)))
      → List FrontendTransaction
      → Exec W (List String)
  unfolding post_json post_process_send_multiple_txs_result
  send_transactions marshal unmarshal txs = do
    txs_hashes ← post_json ep unmarshal send_multiple_transactions (marshal txs)
    pure (post_process_send_multiple_txs_result txs_hashes)

  unfoldable pub request_transaction_cost :
      {A : Type 0}
      → (FrontendTransaction → Result Bytes)
      → (Bytes → Result (Reply A))
      → FrontendTransaction
      → Exec W A
  unfolding post_json
  request_transaction_cost marshal unmarshal tx =
      post_json ep unmarshal cost_transaction (marshal tx)
