-- ===== src/Authentication/Client.antt =====
-- authentication/native/client.go: the client makes an access token, signs it and keeps it until it
-- expires. The proxy, the signer with the holder of the keys, and the clock are parameters.
pub mod Session
use mx_sdk_erdgo.Prelude.{ℕ, Bool, true, false, ◌||◌, if◌then◌else◌, List, [], ◌∷◌}
use mx_sdk_erdgo.Prelude.Exec.{Exec, Result, ok, err, panic, Error, ◌>>=◌, ◌>>◌, pure, lift, call}
use mx_sdk_erdgo.Chain.{Bytes}
use mx_sdk_erdgo.BigInt.{ℤ}
use mx_sdk_erdgo.Authentication.{AuthToken, get_unsigned_token, get_signable_message, encode}
use mx_sdk_erdgo.Authentication.Time.{Time, zero_time, is_zero, after, add}

-- The fields of `authClient` that are data.
pub record AuthClient : Type 0 where
  pub extra_info : Bytes
  pub token_expiry_in_seconds : ℤ
  pub host : Bytes
  pub token : Bytes
  pub token_expire : Time

-- The hash stands for a hyper block, of which it is all that is read. `sign_message` holds the private
-- key, `get_bech32` is its address.
pub record Wallet (W : Type 0) : Type 0 where
  pub get_latest_hyper_block_nonce : Exec W ℕ
  pub get_hyper_block_by_nonce : ℕ → Exec W Bytes
  pub get_bech32 : Bytes
  pub sign_message : Bytes → Result Bytes
  pub now : W → Time

-- The empty struct of the arguments is marshalled to `{}`.
unfoldable pub new_native_auth_client : Bytes → ℤ → AuthClient
new_native_auth_client host token_expiry_in_seconds = record {
  extra_info = 123 ∷ 125 ∷ [];
  token_expiry_in_seconds = token_expiry_in_seconds;
  host = host;
  token = [];
  token_expire = zero_time;
}

module _ {W : Type 0} (wallet : Wallet W) where
  unfoldable pub unsigned : Bytes → AuthClient → AuthToken
  unsigned hash client = record {
    ttl = client.token_expiry_in_seconds;
    address = wallet.get_bech32;
    host = client.host;
    extra_info = client.extra_info;
    signature = [];
    block_hash = hash;
  }

  abbrev pub message_of : AuthToken → Bytes
  message_of token = get_signable_message token.address (get_unsigned_token token)

  abbrev pub expires : Result (Unit {0}) → AuthClient × W → Result (Unit {0}) × (AuthClient × W)
  expires (ok u) (client, w) = (
    ok tt,
    (record client { token_expire = add (wallet.now w) client.token_expiry_in_seconds }, w),
  )
  expires other s = (other, s)

  abbrev pub text_of : Result Bytes → Bytes
  text_of (ok text) = text
  text_of other = []

  abbrev pub outcome : Result Bytes → Result (Unit {0})
  outcome (ok text) = ok tt
  outcome (err e) = err e
  outcome panic = panic

  -- `nac.token, err = Encode(token)` writes the token, the empty text on an error, before the test.
  unfoldable pub store : Result Bytes → Exec (AuthClient × W) (Unit {0})
  store result (client, w) = expires (outcome result) (record client { token = text_of result }, w)

  unfoldable pub sign_and_store : Bytes → Exec (AuthClient × W) (Unit {0})
  unfolding unsigned store
  sign_and_store hash (client, w) =
      let token = unsigned hash client in
      (do
        signature ← lift (wallet.sign_message (message_of token))
        store (encode (record token { signature = signature })))
        (client, w)

  unfoldable pub create_new_token : Exec (AuthClient × W) (Unit {0})
  unfolding sign_and_store
  create_new_token = do
    nonce ← call wallet.get_latest_hyper_block_nonce
    hash ← call (wallet.get_hyper_block_by_nonce nonce)
    sign_and_store hash

  -- Whether a token must be made.
  unfoldable pub needs_token : AuthClient → W → Bool
  needs_token client w = is_zero client.token_expire || after (wallet.now w) client.token_expire

  unfoldable pub current_token : Exec (AuthClient × W) Bytes
  current_token (client, w) = (ok client.token, (client, w))

  unfoldable pub get_access_token : Exec (AuthClient × W) Bytes
  unfolding needs_token create_new_token current_token
  get_access_token (client, w) =
      let renewed = (create_new_token >> current_token) (client, w) in
      if needs_token client w then renewed else current_token (client, w)
