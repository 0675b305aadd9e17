-- ===== src/ExampleChain.antt =====
-- A small chain for the tests: one account, a proxy that can be offline, and what it was sent.
use mx_sdk_erdgo.Prelude.{
  ℕ, String, Bool, true, false, List, [], ◌∷◌, ◌++◌, refl, map, ◌==◌, string_eq, bytes_eq,
  if◌then◌else◌,
}
use mx_sdk_erdgo.Prelude.Exec.{Exec, ok, err, external}
use mx_sdk_erdgo.Chain.{
  Address, FrontendTransaction, Account, NetworkConfig, PubkeyConverter, Proxy, Context,
}

pub record World : Type 0 where
  pub account_nonce : ℕ
  pub online : Bool
  pub sent : List FrontendTransaction
  pub cancelled : Bool

abbrev pub world : ℕ → World
world n = record { account_nonce = n; online = true; sent = []; cancelled = false }

abbrev pub account : ℕ → Account
account n = record {
  address = "alice";
  nonce = n;
  balance = "1000";
  code = "";
  code_hash = [];
  root_hash = [];
  code_metadata = [];
  username = "";
  developer_reward = "0";
  owner_address = "";
}

abbrev pub config : NetworkConfig
config = record {
  chain_id = "T";
  gas_per_data_byte = 1500;
  min_gas_limit = 50000;
  min_gas_price = 1000;
  min_transaction_version = 1;
  num_shards_without_meta = 3;
}

abbrev answer : {A : Type 0} → A → List FrontendTransaction → Exec World A
answer a txs w =
    if w.online then (ok a, record w { sent = w.sent ++ txs }) else (err (external "offline"), w)

abbrev pub proxy : Proxy World
proxy = record {
  get_network_config = answer config [];
  get_account = λ a w. answer (account w.account_nonce) [] w;
  send_transaction = λ tx. answer "hash" (tx ∷ []);
  send_transactions = λ txs. answer (map (λ tx. "hash") txs) txs;
}

abbrev pub alice : Address
alice = 1 ∷ []

abbrev pub bob : Address
bob = 2 ∷ []

abbrev pub converter : PubkeyConverter
converter = record {
  decode = λ s.
      if s == "alice"
      then ok alice
      else if s == "bob"
      then ok bob
      else err (external "bad address");
  encode = λ a. if a == alice then ok "alice" else ok "bob";
}

abbrev pub ctx : Context World
ctx = record {
  is_done = λ w. w.cancelled;
  cancel = λ w. record w { cancelled = true };
  cancel_done = λ w. refl;
}

-- A transaction of alice with this nonce and this value.
abbrev pub tx_of : ℕ → String → FrontendTransaction
tx_of n value = record {
  nonce = n;
  value = value;
  receiver = "bob";
  sender = "alice";
  gas_price = 1000;
  gas_limit = 50000;
  payload = [];
  signature = "";
  chain_id = "T";
  version = 1;
  options = 0;
  guardian_addr = "";
  guardian_signature = "";
}
