-- ===== src/Workflows/WalletTracker/Examples.antt =====
-- The theorems on the wallet tracker at concrete inputs, and tests.
use mx_sdk_erdgo.Prelude.{
  ℕ, ◌≡◌, refl, String, Bool, none, some, List, [], ◌∷◌, arith, ◌==◌, string_eq, nat_eq,
  if◌then◌else◌,
}
use mx_sdk_erdgo.Prelude.Exec.{ok, err, external}
use mx_sdk_erdgo.BigInt.{pos, negsuc, set_string}
use mx_sdk_erdgo.Workflows.AddressesAccumulator.{push}
use mx_sdk_erdgo.Dict.{insert}
use mx_sdk_erdgo.Workflows.WalletTracker.{
  TransactionOnNetwork, HyperBlock, WalletTracker, ProxyHandler, LastProcessedNonceHandler,
  process_transactions, fetch_and_process_hyper_blocks,
}
use mx_sdk_erdgo.Workflows.WalletTracker.Deposits.{
  deposits, notify_all, having, process_transactions-deposits,
}
use mx_sdk_erdgo.Workflows.WalletTracker.Rounds.{
  Collaborators, Progress, fetch_and_process_hyper_blocks-Progress,
}

-- A world is the last processed nonce.
abbrev transfer : List ℕ → String → TransactionOnNetwork
transfer value receiver = record { value = value; receiver = receiver }

-- "25" to alice and to bob, "3" to alice, and a value that is no number.
abbrev block : ℕ → HyperBlock
block n = record {
  nonce = n;
  transactions =
      transfer (50 ∷ 53 ∷ []) "alice"
      ∷ transfer (50 ∷ 53 ∷ []) "bob"
      ∷ transfer (51 ∷ []) "alice"
      ∷ transfer (120 ∷ []) "alice"
      ∷ [];
}

abbrev proxy : ProxyHandler ℕ
proxy = record {
  get_latest_hyper_block_nonce = λ w. (ok 7, w);
  get_hyper_block_by_nonce =
      λ n w. if n == 7 then (err (external "offline"), w) else (ok (block n), w);
}

abbrev nonces : LastProcessedNonceHandler ℕ
nonces = record { processed_nonce = λ n w. n; get_last_processed_nonce = λ w. w }

abbrev tracks : String → Bool
tracks a = a == "alice"

abbrev tracker : WalletTracker ℕ
tracker = record {
  accumulator = record { addresses_map = [] };
  minimum_balance = pos 10;
  handler_new_deposit_transaction = none;
}

collaborators : Collaborators proxy nonces none
collaborators = record {
  block = block;
  fetched = λ n w b e. ground arith;
  fetch_last = λ n w. ground arith;
  latest_last = λ w. refl;
  notified_last = λ tx w. refl;
  processed_last = λ n w. refl;
}

fetch_and_process_hyper_blocks-Progress_example :
    Progress tracks proxy nonces collaborators.block 3 tracker 4
      (fetch_and_process_hyper_blocks tracks proxy nonces (tracker, 4))
fetch_and_process_hyper_blocks-Progress_example =
    fetch_and_process_hyper_blocks-Progress tracks proxy nonces tracker 4 collaborators 7 4 refl
      (omega arith) (omega arith)

process_transactions-deposits_example :
    process_transactions tracks (block 1).transactions (tracker, 4) ≡ (
      having tracker (deposits tracks (pos 10) (block 1).transactions),
      notify_all none (deposits tracks (pos 10) (block 1).transactions) 4,
    )
process_transactions-deposits_example =
    process_transactions-deposits tracks (block 1).transactions tracker 4

-- Block 7 cannot be fetched: the round ends with block 6 as the last processed one.
run_to_six : fetch_and_process_hyper_blocks tracks proxy nonces (tracker, 4) ≡ (
  err (external "offline"),
  (record tracker { accumulator = record { addresses_map = ("alice", tt) ∷ [] } }, 6),
)
unfolding fetch_and_process_hyper_blocks set_string push insert
run_to_six = refl

read_minus_twelve : set_string (45 ∷ 49 ∷ 50 ∷ []) ≡ some (negsuc 11)
unfolding set_string
read_minus_twelve = refl
