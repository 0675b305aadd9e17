-- ===== src/Authentication/Server.antt =====
-- authentication/native/server.go: tokens are validated, with the timestamps of blocks in a cache. A
-- client of the chain's API, the signing library and the clock are parameters.
pub mod Accepts
pub mod Acceptance
pub mod Cache
use mx_sdk_erdgo.Prelude.{
  ℕ, ◌≡◌, Bool, true, false, not, ◌||◌, Option, none, some, ◌==◌, nat_eq, if◌then◌else◌, List, [],
  ◌∷◌, ◌++◌, inl, inr, ◌⊎◌,
}
use mx_sdk_erdgo.Prelude.Exec.{
  Exec, Result, ok, err, Error, ◌>>=◌, ◌>>◌, pure, raise, lift, attempt, fail_if, wrapped,
  token_expired, invalid_cached_value, http_status_code_is_not_ok,
}
use mx_sdk_erdgo.Chain.{Bytes, Response}
use mx_sdk_erdgo.BigInt.{ℤ}
use mx_sdk_erdgo.MapCacher.{MapCacher}
use mx_sdk_erdgo.Authentication.{
  AuthToken, get_unsigned_token, get_signable_message, get_signable_message_legacy,
}
use mx_sdk_erdgo.Authentication.Time.{Time, add_int64, after, unix}

-- `storage.Cacher`, as far as the server calls it, with state `C` and values `V`.
pub record Cacher (C V : Type 0) : Type 0 where
  pub get : Bytes → C → Option V
  pub put : Bytes → V → C → C
  pub get-put : (key : Bytes) (value : V) (c : C) → get key (put key value c) ≡ some value

-- An `interface{}` of the cache.
pub data Cached : Type 0 where
  int64 : ℤ → Cached
  another : Cached

-- What the server calls: the HTTP client, `json.Unmarshal` of a block's timestamp, the converter of
-- addresses, the key generator, the signer, of whose `VerifyMessage` none is success, and the clock.
pub record Services (W K : Type 0) : Type 0 where
  pub get_http : Bytes → W → Response × W
  pub unmarshal_timestamp : Bytes → Result ℤ
  pub decode_address : Bytes → Result Bytes
  pub public_key_from_byte_array : Bytes → Result K
  pub verify_message : Bytes → K → Bytes → Option Error
  pub now : W → Time

abbrev pub blocks_endpoint : Bytes
blocks_endpoint = 98 ∷ 108 ∷ 111 ∷ 99 ∷ 107 ∷ 115 ∷ 47 ∷ []

-- `CreateHTTPStatusError`
unfoldable pub create_http_status_error : Option Error → Error
create_http_status_error none = wrapped "returned http status" http_status_code_is_not_ok
create_http_status_error (some e) = wrapped "returned http status" e

abbrev pub is_some : {A : Type 0} → Option A → Bool
is_some none = false
is_some (some a) = true

module _ {W K : Type 0} (services : Services W K) where
  unfoldable pub block_of : Response → Result ℤ
  unfolding create_http_status_error
  block_of response =
      if is_some response.error || not (response.code == 200)
      then err (create_http_status_error response.error)
      else services.unmarshal_timestamp response.buff

  -- The timestamp is all that a `data.Block` holds.
  unfoldable pub get_block_by_hash : Bytes → Exec W ℤ
  unfolding block_of
  get_block_by_hash hash w =
      let (response, w') = services.get_http (blocks_endpoint ++ hash) w in (block_of response, w')

  abbrev pub verified : Option Error → Result (Unit {0})
  verified none = ok tt
  verified (some e) = err e

  abbrev pub verify_again : Option Error → Result (Unit {0}) → Result (Unit {0})
  verify_again none legacy = ok tt
  verify_again (some e) legacy = legacy

  unfoldable pub verify_with : AuthToken → K → Result (Unit {0})
  verify_with token pubkey =
      let unsigned_token = get_unsigned_token token in
      let message = get_signable_message token.address unsigned_token in
      let legacy = get_signable_message_legacy token.address unsigned_token in
      verify_again (services.verify_message message pubkey token.signature)
        (verified (services.verify_message legacy pubkey token.signature))

  module _ {C : Type 0} (cacher : Cacher C Cached) where
    abbrev pub cached_timestamp : Cached → Exec (C × W) ℤ
    cached_timestamp (int64 timestamp) = pure timestamp
    cached_timestamp another = raise (wrapped "while casting timestamp value" invalid_cached_value)

    abbrev pub remember : Bytes → Result ℤ × W → C → Result ℤ × (C × W)
    remember hash (ok timestamp, w) c = (ok timestamp, (cacher.put hash (int64 timestamp) c, w))
    remember hash (other, w) c = (other, (c, w))

    unfoldable pub fetch_timestamp : Bytes → Exec (C × W) ℤ
    unfolding get_block_by_hash
    fetch_timestamp hash (c, w) = remember hash (get_block_by_hash hash w) c

    abbrev pub timestamp_of : Bytes → Option Cached → Exec (C × W) ℤ
    timestamp_of hash none = fetch_timestamp hash
    timestamp_of hash (some value) = cached_timestamp value

    unfoldable pub get_block_timestamp : Bytes → Exec (C × W) ℤ
    unfolding fetch_timestamp
    get_block_timestamp hash (c, w) = timestamp_of hash (cacher.get hash c) (c, w)

    -- Whether a token of a block with this timestamp has expired.
    unfoldable pub is_expired : ℤ → ℤ → W → Bool
    is_expired timestamp ttl w = after (services.now w) (unix (add_int64 timestamp ttl))

    unfoldable pub refuse_expired : ℤ → ℤ → Exec (C × W) (Unit {0})
    unfolding is_expired
    refuse_expired timestamp ttl (c, w) = fail_if (is_expired timestamp ttl w) token_expired (c, w)

    unfoldable pub validate_expiration : AuthToken → Exec (C × W) (Unit {0})
    unfolding get_block_timestamp refuse_expired
    validate_expiration token = do
      timestamp ← get_block_timestamp token.block_hash
      refuse_expired timestamp token.ttl

    unfoldable pub validate_signature : AuthToken → Exec (C × W) (Unit {0})
    unfolding verify_with
    validate_signature token = do
      address ← lift (services.decode_address token.address)
      pubkey ← lift (services.public_key_from_byte_array address)
      lift (verify_with token pubkey)

    unfoldable pub validate : AuthToken → Exec (C × W) (Unit {0})
    unfolding validate_expiration validate_signature
    validate token = validate_expiration token >> validate_signature token
