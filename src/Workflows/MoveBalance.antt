-- ===== src/Workflows/MoveBalance.antt =====
-- workflows/moveBalanceHandler.go: transactions that empty the accounts. What it calls is a parameter: of
-- the proxy, of the interactor, and the keys of the accounts.
pub mod Values
pub mod Examples
use mx_sdk_erdgo.Prelude.{
  ℕ, ◌+◌, ◌-◌, ◌*◌, ◌^◌, ◌%◌, String, Bool, true, false, Option, none, some, ◌⊎◌, inl, inr, List,
  [], ◌∷◌, length, ltb, leb, if◌then◌else◌,
}
use mx_sdk_erdgo.Prelude.Exec.{
  Exec, Result, ok, err, panic, Error, ◌>>=◌, ◌>>◌, pure, raise, lift, call, attempt, plain,
}
use mx_sdk_erdgo.Prelude.Results.{or_fail}
use mx_sdk_erdgo.Chain.{Address, Bytes, FrontendTransaction, NetworkConfig, u64}
use mx_sdk_erdgo.BigInt.{ℤ, pos, negsuc, is_less, set_string}
use mx_sdk_erdgo.Text.Ascii.{codes, ascii_text}
use mx_sdk_erdgo.Text.Decimal.{format_int}

-- `CryptoComponentsHolder` stands for the bytes of the key.
pub record Collaborators (W : Type 0) : Type 0 where
  pub decode_address : String → Result Address
  pub get_network_config : Exec W (Option NetworkConfig)
  pub get_default_transaction_arguments :
      Address → NetworkConfig → Exec W (FrontendTransaction × String)
  pub private_key_of : String → Bytes
  pub new_crypto_holder : Bytes → Result Bytes
  pub apply_user_signature : Bytes → FrontendTransaction → Exec W FrontendTransaction
  pub add_transaction : FrontendTransaction → Exec W (Unit {0})

pub record MoveBalanceHandler : Type 0 where
  pub cached_net_configs : Option NetworkConfig
  pub receiver_address : String
  pub minimum_balance : ℤ

-- `int64(…)` of a uint64.
abbrev pub to_int64 : ℕ → ℤ
to_int64 n = if ltb n (2 ^ 63) then pos n else negsuc (u64 - 1 - n)

-- a - b, of natural numbers.
abbrev pub difference : ℕ → ℕ → ℤ
difference a b = if leb b a then pos (a - b) else negsuc (b - a - 1)

abbrev pub negate : ℤ → ℤ
negate (pos n) = difference 0 n
negate (negsuc n) = pos (n + 1)

abbrev pub add : ℤ → ℤ → ℤ
add (pos a) (pos b) = pos (a + b)
add (pos a) (negsuc b) = difference a (b + 1)
add (negsuc a) (pos b) = difference b (a + 1)
add (negsuc a) (negsuc b) = negsuc (a + b + 1)

abbrev pub multiply : ℤ → ℤ → ℤ
multiply (pos a) (pos b) = pos (a * b)
multiply (pos a) (negsuc b) = difference 0 (a * (b + 1))
multiply (negsuc a) (pos b) = difference 0 ((a + 1) * b)
multiply (negsuc a) (negsuc b) = pos ((a + 1) * (b + 1))

-- The gas limit is of the network, and not of the transaction; it wraps around.
unfoldable pub compute_tx_fee : NetworkConfig → FrontendTransaction → ℤ
compute_tx_fee configs tx =
    multiply (to_int64 tx.gas_price)
      (to_int64 ((configs.min_gas_limit + length tx.payload * configs.gas_per_data_byte) % u64))

-- The transaction as it is signed: everything but the fee.
unfoldable pub emptying :
    MoveBalanceHandler → NetworkConfig → FrontendTransaction → ℤ → FrontendTransaction
unfolding compute_tx_fee format_int
emptying mbh configs tx balance =
    let addressed : FrontendTransaction = record tx {
      payload = [];
      receiver = mbh.receiver_address;
    } in
    record addressed {
      value = ascii_text (format_int (add balance (negate (compute_tx_fee configs addressed))));
    }

module _ {W : Type 0} (others : Collaborators W) where
  unfoldable pub cache_network_configs : Exec (MoveBalanceHandler × W) (Unit {0})
  cache_network_configs = do
    configs ← call others.get_network_config
    (λ (mbh, w). (ok tt, (record mbh { cached_net_configs = configs }, w)))

  abbrev pub sign_and_add : Bytes → FrontendTransaction → Exec W (Unit {0})
  sign_and_add holder tx = do
    signed ← others.apply_user_signature holder tx
    others.add_transaction signed

  -- Nothing is sent of a balance under the threshold.
  abbrev pub unless_under : Bool → String → FrontendTransaction → Exec W (Unit {0})
  unless_under true address tx = pure tt
  unless_under false address tx = do
    holder ← lift (others.new_crypto_holder (others.private_key_of address))
    sign_and_add holder tx

  unfoldable pub generate_transaction : MoveBalanceHandler → String → Exec W (Unit {0})
  unfolding emptying set_string
  generate_transaction mbh address = do
    handler ← lift (others.decode_address address)
    configs ← lift (or_fail (plain "nil cached configs") mbh.cached_net_configs)
    (tx, balance_text) ← others.get_default_transaction_arguments handler configs
    balance ←
        lift (or_fail (plain "invalid available balance value") (set_string (codes balance_text)))
    unless_under (is_less balance mbh.minimum_balance) address (emptying mbh configs tx balance)

  -- An error is logged, and the next address goes on.
  unfoldable pub generate_move_balance_transactions :
      MoveBalanceHandler → List String → Exec W (Unit {0})
  unfolding generate_transaction
  generate_move_balance_transactions mbh [] = pure tt
  generate_move_balance_transactions mbh (address ∷ addresses) =
      let following = generate_move_balance_transactions mbh addresses in
      (do _ ← attempt (generate_transaction mbh address); following)
