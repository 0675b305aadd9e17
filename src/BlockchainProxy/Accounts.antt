-- ===== src/BlockchainProxy/Accounts.antt =====
-- blockchain/proxy.go: what is asked about an account.
use mx_sdk_erdgo.Prelude.{ℕ, String, Bool, Option, none, some, [], string_eq, if◌then◌else◌}
use mx_sdk_erdgo.Prelude.Exec.{Exec, Result, err, ◌>>=◌, ◌>>◌, pure, lift, call, plain}
use mx_sdk_erdgo.Prelude.Results.{or_fail, or_panic}
use mx_sdk_erdgo.Dict.{Dict, lookup}
use mx_sdk_erdgo.Chain.{
  Account, Address, Bytes, FrontendTransaction, NetworkConfig, PubkeyConverter,
}
use mx_sdk_erdgo.Builders.{is_valid}
use mx_sdk_erdgo.BaseProxy.{BaseProxy}
use mx_sdk_erdgo.Endpoints.{
  account, esdt, nft, guardian_data, is_data_trie_migrated_path, AccountQueryOptions,
  build_url_with_account_query_options,
}
use mx_sdk_erdgo.BlockchainProxy.{BlockchainProxy, Reply, fetch, check_final_state}

-- The checks of an address, and its text.
unfoldable pub checked_text : PubkeyConverter → Option Address → Result String
unfolding is_valid
checked_text converter none = err (plain "nil address")
checked_text converter (some address) =
    if is_valid address then converter.encode address else err (plain "invalid address")

-- `IsDataTrieMigrated` does not ask whether the address is valid.
abbrev pub text_of : PubkeyConverter → Option Address → Result String
text_of converter none = err (plain "nil address")
text_of converter (some address) = converter.encode address

module _ {W : Type 0} (ep : BlockchainProxy W) where
  -- A nil account is no error.
  unfoldable pub get_account :
      (Bytes → Result (Reply (Option Account)))
      → Option Address
      → Exec (BaseProxy × W) (Option Account)
  unfolding checked_text check_final_state fetch
  get_account unmarshal address = do
    bech32 ← lift (checked_text ep.services.converter address)
    check_final_state ep bech32
    call (fetch ep unmarshal (account bech32))

  -- The sender, the nonce and the terms of the network; the rest is empty.
  abbrev pub default_transaction : String → ℕ → NetworkConfig → FrontendTransaction
  default_transaction sender nonce configs = record {
    nonce = nonce;
    value = "";
    receiver = "";
    sender = sender;
    gas_price = configs.min_gas_price;
    gas_limit = configs.min_gas_limit;
    payload = [];
    signature = "";
    chain_id = configs.chain_id;
    version = configs.min_transaction_version;
    options = 0;
    guardian_addr = "";
    guardian_signature = "";
  }

  -- A nil account is a nil dereference. The encoding of the address comes before the account is read.
  unfoldable pub get_default_transaction_arguments :
      (Bytes → Result (Reply (Option Account)))
      → Option Address
      → Option NetworkConfig
      → Exec (BaseProxy × W) (FrontendTransaction × String)
  unfolding get_account
  get_default_transaction_arguments unmarshal address network_configs = do
    configs ← lift (or_fail (plain "nil network configs") network_configs)
    known ← lift (or_fail (plain "nil address") address)
    found ← get_account unmarshal (some known)
    sender ← lift (ep.services.converter.encode known)
    holder ← lift (or_panic found)
    pure (default_transaction sender holder.nonce configs, holder.balance)

  unfoldable pub get_esdt_token_data :
      {A : Type 0}
      → (Bytes → Result (Reply A))
      → Option Address
      → String
      → AccountQueryOptions
      → Exec W A
  unfolding checked_text fetch build_url_with_account_query_options
  get_esdt_token_data unmarshal address token_identifier query_options = do
    bech32 ← lift (checked_text ep.services.converter address)
    fetch ep unmarshal
        (build_url_with_account_query_options (esdt bech32 token_identifier) query_options)

  unfoldable pub get_nft_token_data :
      {A : Type 0}
      → (Bytes → Result (Reply A))
      → Option Address
      → String
      → ℕ
      → AccountQueryOptions
      → Exec W A
  unfolding checked_text fetch build_url_with_account_query_options
  get_nft_token_data unmarshal address token_identifier nonce query_options = do
    bech32 ← lift (checked_text ep.services.converter address)
    fetch ep unmarshal
        (build_url_with_account_query_options (nft bech32 token_identifier nonce) query_options)

  unfoldable pub get_guardian_data :
      {A : Type 0} → (Bytes → Result (Reply A)) → Option Address → Exec (BaseProxy × W) A
  unfolding checked_text check_final_state fetch
  get_guardian_data unmarshal address = do
    bech32 ← lift (checked_text ep.services.converter address)
    check_final_state ep bech32
    call (fetch ep unmarshal (guardian_data bech32))

  unfoldable pub is_data_trie_migrated :
      (Bytes → Result (Reply (Dict String Bool))) → Option Address → Exec W Bool
  unfolding fetch lookup
  is_data_trie_migrated unmarshal address = do
    bech32 ← lift (text_of ep.services.converter address)
    response ← fetch ep unmarshal (is_data_trie_migrated_path bech32)
    lift (or_fail (plain "isMigrated key not found in response map") (lookup response "isMigrated"))
