-- ===== src/Authentication/Examples.antt =====
-- Tokens of a small chain: it has one block, its clock is the world, in seconds, and a signature is the
-- length of the message.
use mx_sdk_erdgo.Prelude.{
  ℕ, ◌%◌, ◌≡◌, ◌≢◌, ◌↔◌, refl, sym, none, some, [], ◌∷◌, arith, length, ◌==◌, bytes_eq,
  if◌then◌else◌,
}
use mx_sdk_erdgo.Prelude.Exec.{ok, external}
use mx_sdk_erdgo.Chain.{Bytes}
use mx_sdk_erdgo.Dict.{lookup, insert}
use mx_sdk_erdgo.BigInt.{pos}
use mx_sdk_erdgo.MapCacher.{MapCacher, get, put}
use mx_sdk_erdgo.Authentication.{
  AuthToken, encode, decode, get_unsigned_token, get_signable_message,
}
use mx_sdk_erdgo.Prelude.Results.{◌>>=◌ as ◌>>>=◌}
use mx_sdk_erdgo.Authentication.RoundTrip.{IsWellFormed, decode-encode}
use mx_sdk_erdgo.Authentication.Time.{Time, zero_time, after, unix}
use mx_sdk_erdgo.Authentication.Server.{
  Cached, int64, Services, is_expired, validate, get_block_timestamp,
}
use mx_sdk_erdgo.Authentication.Server.Cache.{map_cacher}
use mx_sdk_erdgo.Authentication.Server.Accepts.{IsFresh, IsSignedByAddress}
use mx_sdk_erdgo.Authentication.Server.Acceptance.{IsInTime, validate_iff}
use mx_sdk_erdgo.Authentication.Client.{AuthClient, Wallet, create_new_token, unsigned}
use mx_sdk_erdgo.Authentication.Client.Session.{
  IsReady, Obtains, Matches, IsAccepted, create_new_token-IsAccepted,
}

filled : (c : ℕ) (cs : Bytes) → c ∷ cs ≢ []
filled c cs = λ e. ground arith

abbrev hash : Bytes
hash = 97 ∷ 98 ∷ []

abbrev token : AuthToken
token = record {
  ttl = pos 60;
  address = 101 ∷ 114 ∷ 100 ∷ [];
  host = 104 ∷ [];
  extra_info = 123 ∷ 125 ∷ [];
  signature = 5 ∷ 255 ∷ [];
  block_hash = hash;
}

token-IsWellFormed : IsWellFormed token
token-IsWellFormed = (
  (omega arith, (omega arith, (omega arith, tt))),
  (omega arith, tt),
  (omega arith, (omega arith, tt)),
  (omega arith, (omega arith, tt)),
  (omega arith, (omega arith, tt)),
  (ground arith, (ground arith, tt)),
  refl,
)

decode-encode_example : (encode token >>>= decode) ≡ ok token
decode-encode_example =
    decode-encode token token-IsWellFormed (filled 5 (255 ∷ [])) (filled 101 (114 ∷ 100 ∷ []))

abbrev clock : ℕ → Time
clock w = record { sec = pos w; nsec = 0 }

abbrev signature_of : Bytes → Bytes
signature_of message = length message % 256 ∷ []

abbrev small_wallet : Wallet ℕ
small_wallet = record {
  get_latest_hyper_block_nonce = λ w. (ok 7, w);
  get_hyper_block_by_nonce = λ nonce w. (ok hash, w);
  get_bech32 = 101 ∷ 114 ∷ 100 ∷ [];
  sign_message = λ message. ok (signature_of message);
  now = clock;
}

abbrev small_services : Services ℕ (Unit {0})
small_services = record {
  get_http = λ path w. (record { error = none; code = 200; buff = [] }, w);
  unmarshal_timestamp = λ buff. ok (pos 1000);
  decode_address = λ address. ok address;
  public_key_from_byte_array = λ address. ok tt;
  verify_message = λ message pubkey signature.
      if signature == signature_of message then none else some (external "invalid signature");
  now = clock;
}

abbrev client : AuthClient
client = record {
  extra_info = 123 ∷ 125 ∷ [];
  token_expiry_in_seconds = pos 60;
  host = 104 ∷ [];
  token = [];
  token_expire = zero_time;
}

abbrev made_at : ℕ
made_at = 62135597850

abbrev empty_cache : MapCacher Cached ℕ
empty_cache = record { data_map = []; added_data_handlers = [] }

abbrev full_cache : MapCacher Cached ℕ
full_cache = record { data_map = (hash, int64 (pos 1000)) ∷ []; added_data_handlers = [] }

client-IsReady : IsReady small_wallet client
client-IsReady = (
  (omega arith, (omega arith, (omega arith, tt))),
  filled 101 (114 ∷ 100 ∷ []),
  (omega arith, tt),
  (omega arith, (omega arith, tt)),
  refl,
)

abbrev client_signature : Bytes
client_signature = signature_of (
    get_signable_message small_wallet.get_bech32
      (get_unsigned_token (unsigned small_wallet hash client)))

client-Obtains : Obtains small_wallet client made_at hash client_signature made_at
unfolding unsigned
client-Obtains = (
  7,
  made_at,
  refl,
  refl,
  (omega arith, (omega arith, tt)),
  (ground arith, (ground arith, tt)),
  refl,
  (omega arith, tt),
  filled _ [],
)

small-Matches : Matches small_wallet small_services
small-Matches =
    (small_wallet.get_bech32, tt, refl, refl, λ message signature e. verifies message signature e)
  where
    verifies :
        (message signature : Bytes)
        → ok (signature_of message) ≡ ok signature
        → (if signature == signature_of message then none else some (external "invalid signature"))
          ≡ none
    verifies message signature e =
        let same : signature_of message ≡ signature = ground arith in
        let equal = (bytes_eq.same_iff signature (signature_of message)).1 (sym same) in
        rw equal refl

found :
    get_block_timestamp small_services map_cacher hash (empty_cache, made_at)
    ≡ (ok (pos 1000), (full_cache, made_at))
unfolding get_block_timestamp put get lookup insert
found = refl

client-IsFresh :
    IsFresh small_services map_cacher
      (unsigned small_wallet hash client)
      (empty_cache, made_at)
      (full_cache, made_at)
unfolding is_expired unsigned after unix
client-IsFresh = (pos 1000, found, refl)

create_new_token-IsAccepted_example :
    (client' : AuthClient) × (create_new_token small_wallet (client, made_at)
      ≡ (ok tt, (client', made_at)))
    × IsAccepted small_services map_cacher client'.token
        (empty_cache, made_at)
        (full_cache, made_at)
create_new_token-IsAccepted_example =
    create_new_token-IsAccepted small_wallet small_services map_cacher client made_at hash
      client_signature made_at (empty_cache, made_at) (full_cache, made_at) client-IsReady
      client-Obtains small-Matches client-IsFresh

made :
    (client' : AuthClient) × (create_new_token small_wallet (client, made_at)
      ≡ (ok tt, (client', made_at)))
made =
    let (client', run, accepted) =
      create_new_token-IsAccepted small_wallet small_services map_cacher client made_at hash
        client_signature made_at (empty_cache, made_at) (full_cache, made_at) client-IsReady
        client-Obtains small-Matches client-IsFresh in
    (client', run)

validate_iff_example :
    (validate small_services map_cacher token (empty_cache, made_at)
      ≡ (ok tt, (full_cache, made_at)))
    ↔ (IsInTime small_services map_cacher token (empty_cache, made_at) (full_cache, made_at)
        × IsSignedByAddress small_services token)
validate_iff_example =
    validate_iff small_services map_cacher token (empty_cache, made_at) (full_cache, made_at)
