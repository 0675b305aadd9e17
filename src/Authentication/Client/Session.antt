-- ===== src/Authentication/Client/Session.antt =====
-- The client's tokens at the server, and for how long the client keeps them.
use mx_sdk_erdgo.Prelude.{
  ℕ, suc, ◌+◌, ◌/◌, ◌%◌, ◌^◌, ◌<◌, ◌≤◌, ◌≡◌, ◌≢◌, refl, sym, ap, ◌∙◌, Bool, true, false, Bool-cases,
  ◌||◌, none, inl, inr, [], arith, leb, nat_eq,
}
use mx_sdk_erdgo.Prelude.Exec.{Result, ok, err, panic, ◌>>=◌, lift, call}
use mx_sdk_erdgo.Prelude.Success.{bind-ok, lift-ok, call-ok, differ_err, differ_panic}
use mx_sdk_erdgo.Chain.{Bytes}
use mx_sdk_erdgo.BigInt.{pos, is_less}
use mx_sdk_erdgo.Text.{HasNoSeparator}
use mx_sdk_erdgo.Text.Hex.{AreBytes}
use mx_sdk_erdgo.Text.Decimal.{is_int64}
use mx_sdk_erdgo.Authentication.{dot, decode, get_unsigned_token}
use mx_sdk_erdgo.Authentication.RoundTrip.{IsWellFormed, encode-ok, decode-join}
use mx_sdk_erdgo.Authentication.Time.{Time, add, add_int64-pos, after, is_zero, second}
use mx_sdk_erdgo.Authentication.Server.{Cacher, Cached, Services, validate}
use mx_sdk_erdgo.Authentication.Server.Accepts.{IsFresh, validate-IsFresh}
use mx_sdk_erdgo.Authentication.Client.{
  AuthClient, Wallet, unsigned, message_of, store, sign_and_store, create_new_token, needs_token,
}

-- What the client was made with, and the address of its keys.
abbrev pub IsReady : {W : Type 0} → Wallet W → AuthClient → Type 0
IsReady wallet client =
    AreBytes wallet.get_bech32
    × (wallet.get_bech32 ≢ [])
    × AreBytes client.host
    × AreBytes client.extra_info
    × (is_int64 client.token_expiry_in_seconds ≡ true)

-- The proxy answers with the hash of a block, and the signer signs.
abbrev pub Obtains : {W : Type 0} → Wallet W → AuthClient → W → Bytes → Bytes → W → Type 0
Obtains wallet client w hash signature end =
    (nonce : ℕ) × (middle : _) × (wallet.get_latest_hyper_block_nonce w ≡ (ok nonce, middle))
    × (wallet.get_hyper_block_by_nonce nonce middle ≡ (ok hash, end))
    × AreBytes hash
    × HasNoSeparator dot hash
    × (wallet.sign_message (message_of wallet (unsigned wallet hash client)) ≡ ok signature)
    × AreBytes signature
    × (signature ≢ [])

-- The key of the client's address, as the server finds it, verifies what the client signs.
abbrev pub Matches : {W W' K : Type 0} → Wallet W → Services W' K → Type 0
Matches {K = K} wallet services =
    (address : Bytes) × (pubkey : K) × (services.decode_address wallet.get_bech32 ≡ ok address)
    × (services.public_key_from_byte_array address ≡ ok pubkey)
    × ((message signature : Bytes)
        → wallet.sign_message message ≡ ok signature
        → services.verify_message message pubkey signature ≡ none)

-- The server reads a token from a text and accepts it.
abbrev pub IsAccepted :
    {W K C : Type 0} → Services W K → Cacher C Cached → Bytes → C × W → C × W → Type 0
IsAccepted services cacher text s end =
    (lift (decode text) >>= validate services cacher) s ≡ (ok tt, end)

module _ {W : Type 0} (wallet : Wallet W) where
  create_new_token-text :
      (client : AuthClient) (w : W) (hash signature : Bytes) (end : W)
      → IsReady wallet client
      → Obtains wallet client w hash signature end
      → (text : Bytes) × (create_new_token wallet (client, w) ≡ (
        ok tt,
        (
          record client {
            token = text;
            token_expire = add (wallet.now end) client.token_expiry_in_seconds;
          },
          end,
        ),
      ))
        × (decode text ≡ ok (record (unsigned wallet hash client) { signature = signature }))
  unfolding create_new_token sign_and_store store unsigned
  create_new_token-text client w hash signature end ready obtains =
      let (bech, addressed, host, extra, ttl) = ready in
      let (nonce, middle, latest, block, bytes, clean, sign, signs, filled) = obtains in
      let token = record (unsigned wallet hash client) { signature = signature } in
      let well : IsWellFormed token = (bech, host, extra, signs, bytes, clean, ttl) in
      (
        _,
        rw latest (rw block (rw sign (rw (encode-ok token well filled addressed) refl))),
        decode-join token well,
      )

  store-expire :
      (r : Result Bytes) (client : AuthClient) (w : W) (client' : AuthClient) (end : W)
      → store wallet r (client, w) ≡ (ok tt, (client', end))
      → client'.token_expire ≡ add (wallet.now end) client.token_expiry_in_seconds
  unfolding store
  store-expire (ok text) client w client' end e =
      sym (ap (λ x. x.1.0.token_expire) e)
      ∙ ap (λ x. add (wallet.now x.1.1) client.token_expiry_in_seconds) e
  store-expire (err x) client w client' end e = differ_err x tt (ap (λ r. r.0) e)
  store-expire panic client w client' end e = differ_panic tt (ap (λ r. r.0) e)

  sign_and_store-expire :
      (hash : Bytes) (s : AuthClient × W) (client' : AuthClient) (end : W)
      → sign_and_store wallet hash s ≡ (ok tt, (client', end))
      → client'.token_expire ≡ add (wallet.now end) s.0.token_expiry_in_seconds
  unfolding sign_and_store
  sign_and_store-expire hash (client, w) client' end e =
      let (signature, s', sign, stored) =
        bind-ok (lift (wallet.sign_message (message_of wallet (unsigned wallet hash client)))) _
          (client, w) tt (client', end) e in
      let (signs, same) = lift-ok _ (client, w) signature s' sign in
      store-expire _ s'.0 s'.1 client' end stored
      ∙ ap (λ x. add (wallet.now end) x.0.token_expiry_in_seconds) (sym same)

  create_new_token-expire :
      (client : AuthClient) (w : W) (client' : AuthClient) (end : W)
      → create_new_token wallet (client, w) ≡ (ok tt, (client', end))
      → client'.token_expire ≡ add (wallet.now end) client.token_expiry_in_seconds
  unfolding create_new_token sign_and_store store
  create_new_token-expire client w client' end e =
      let (nonce, s1, latest, rest) =
        bind-ok (call wallet.get_latest_hyper_block_nonce) _ (client, w) tt (client', end) e in
      let (hash, s2, block, rest') =
        bind-ok (call (wallet.get_hyper_block_by_nonce nonce)) _ s1 tt (client', end) rest in
      let same =
        call-ok (wallet.get_hyper_block_by_nonce nonce) s1.0 s1.1 hash s2 block
        ∙ call-ok wallet.get_latest_hyper_block_nonce client w nonce s1 latest in
      sign_and_store-expire hash s2 client' end rest'
      ∙ ap (λ c. add (wallet.now end) c.token_expiry_in_seconds) same

  -- A sum of a time of this era and a number below a billion ends in the next second at the latest.
  add_little :
      (t : Time) (sec d : ℕ)
      → t.sec ≡ pos sec
      → sec < 2 ^ 62
      → d < second
      → (sum : ℕ) × ((add t (pos d)).sec ≡ pos sum) × (sum ≤ suc sec)
  unfolding add
  add_little t sec d e era little =
      let same = add_int64-pos sec 0 (omega arith) in
      let next = add_int64-pos sec 1 (omega arith) in
      let whole : d / second ≡ 0 = omega arith in
      let keep : sec + 0 ≡ sec = omega arith in
      elim (Bool-cases (leb second (t.nsec + d % second))) [
        | inl carry ↦ (sec + 1, rw carry (rw whole (rw e (rw same (rw keep next)))), omega arith)
        | inr small ↦ (sec + 0, rw small (rw whole (rw e same)), omega arith)
      ]

  or_true : (b : Bool) → b || true ≡ true
  or_true true = refl
  or_true false = refl

  -- The time to live is added to the clock as if it were in nanoseconds: with one below a billion
  -- seconds, more than thirty years, a client makes a new token again two seconds after the last.
  create_new_token-renewed :
      (client : AuthClient) (w : W) (client' : AuthClient) (end later : W) (ttl sec sec' : ℕ)
      → create_new_token wallet (client, w) ≡ (ok tt, (client', end))
      → client.token_expiry_in_seconds ≡ pos ttl
      → ttl < second
      → (wallet.now end).sec ≡ pos sec
      → sec < 2 ^ 62
      → (wallet.now later).sec ≡ pos sec'
      → sec + 2 ≤ sec'
      → needs_token wallet client' later ≡ true
  unfolding needs_token after
  create_new_token-renewed client w client' end later ttl sec sec' made expiry little made_at era
        asked_at later_on =
      let expire = create_new_token-expire client w client' end made in
      let (sum, ends, bound) = add_little (wallet.now end) sec ttl made_at era little in
      let expires_at : client'.token_expire.sec ≡ pos sum =
        ap (λ t. t.sec) expire ∙ (ap (λ z. (add (wallet.now end) z).sec) expiry ∙ ends) in
      let past : is_less client'.token_expire.sec (wallet.now later).sec ≡ true =
        rw expires_at (rw asked_at (ground arith)) in
      rw past (or_true (is_zero client'.token_expire))

-- The access token of a client that is ready, once the proxy has answered and the signer has signed, is
-- kept by the client, and is accepted by a server for which the address's key verifies what the client
-- signs, as long as it is fresh there.
pub create_new_token-IsAccepted :
    {W W' K C : Type 0} (wallet : Wallet W) (services : Services W' K) (cacher : Cacher C Cached)
    (client : AuthClient) (w : W) (hash signature : Bytes) (end : W) (s s' : C × W')
    → IsReady wallet client
    → Obtains wallet client w hash signature end
    → Matches wallet services
    → IsFresh services cacher (unsigned wallet hash client) s s'
    → (client' : AuthClient) × (create_new_token wallet (client, w) ≡ (ok tt, (client', end)))
      × IsAccepted services cacher client'.token s s'
unfolding unsigned get_unsigned_token
create_new_token-IsAccepted wallet services cacher client w hash signature end s s' ready obtains
      matches fresh =
    let (text, made, read) =
      create_new_token-text wallet client w hash signature end ready obtains in
    let (nonce, middle, latest, block, bytes, clean, sign, signs, filled) = obtains in
    let (address, pubkey, decoded, key, verifies) = matches in
    let token = record (unsigned wallet hash client) { signature = signature } in
    let accepted =
      (validate-IsFresh services cacher token s s').1
        (fresh, (address, pubkey, decoded, key, inl (verifies _ signature sign))) in
    (_, made, rw read accepted)
