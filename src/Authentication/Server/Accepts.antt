-- ===== src/Authentication/Server/Accepts.antt =====
-- What a validation goes through, and when the chain is not asked again.
use mx_sdk_erdgo.Prelude.{
  ◌≡◌, refl, sym, ap, ◌∙◌, false, Option, none, some, Option-cases, inl, inr, ◌⊎◌, ◌↔◌, arith,
}
use mx_sdk_erdgo.Prelude.Exec.{Result, ok, err, panic, Error, lift, token_expired}
use mx_sdk_erdgo.Prelude.Success.{bind-ok, lift-ok, fail_if-ok}
use mx_sdk_erdgo.Chain.{Bytes}
use mx_sdk_erdgo.BigInt.{ℤ}
use mx_sdk_erdgo.Authentication.{
  AuthToken, get_unsigned_token, get_signable_message, get_signable_message_legacy,
}
use mx_sdk_erdgo.Authentication.Server.{
  Cacher, Cached, int64, another, Services, verified, verify_with, remember, fetch_timestamp,
  get_block_by_hash, timestamp_of, get_block_timestamp, is_expired, refuse_expired,
  validate_expiration, validate_signature, validate,
}

module _ {W K : Type 0} (services : Services W K) where
  -- The signature is one of the token's message, or of the one that older clients sign.
  abbrev pub IsSigned : AuthToken → K → Type 0
  IsSigned token pubkey =
      let unsigned_token = get_unsigned_token token in
      (services.verify_message (get_signable_message token.address unsigned_token) pubkey
          token.signature
        ≡ none)
      ⊎ (services.verify_message (get_signable_message_legacy token.address unsigned_token) pubkey
            token.signature
          ≡ none)

  -- Some key belongs to the token's address, and has signed it.
  abbrev pub IsSignedByAddress : AuthToken → Type 0
  IsSignedByAddress token =
      (address : Bytes) × (pubkey : K) × (services.decode_address token.address ≡ ok address)
      × (services.public_key_from_byte_array address ≡ ok pubkey)
      × IsSigned token pubkey

  verified-ok : (o : Option Error) → verified services o ≡ ok tt → o ≡ none
  verified-ok none e = refl
  verified-ok (some x) e = ground arith

  verify_with-ok :
      (token : AuthToken) (pubkey : K)
      → verify_with services token pubkey ≡ ok tt
      → IsSigned token pubkey
  unfolding verify_with
  verify_with-ok token pubkey e =
      elim (Option-cases (
        services.verify_message (get_signable_message token.address (get_unsigned_token token))
          pubkey token.signature)) [
            | inl success ↦ inl success
            | inr (x, failure) ↦ inr (verified-ok _ (rw failure at e))
          ]

  IsSigned-verify_with :
      (token : AuthToken) (pubkey : K)
      → IsSigned token pubkey
      → verify_with services token pubkey ≡ ok tt
  unfolding verify_with
  IsSigned-verify_with token pubkey (inl signed) = rw signed refl
  IsSigned-verify_with token pubkey (inr signed) =
      elim (Option-cases (
        services.verify_message (get_signable_message token.address (get_unsigned_token token))
          pubkey token.signature)) [
            | inl success ↦ rw success refl
            | inr (x, failure) ↦ rw failure (rw signed refl)
          ]

module _ {W K C : Type 0} (services : Services W K) (cacher : Cacher C Cached) where
  -- The block has a timestamp, from which the token has not expired.
  abbrev pub IsFresh : AuthToken → C × W → C × W → Type 0
  IsFresh token s end =
      (timestamp : ℤ) × (get_block_timestamp services cacher token.block_hash s
        ≡ (ok timestamp, end))
      × (is_expired services cacher timestamp token.ttl end.1 ≡ false)

  validate_expiration-IsFresh :
      (token : AuthToken) (s end : C × W)
      → validate_expiration services cacher token s ≡ (ok tt, end)
      → IsFresh token s end
  unfolding validate_expiration refuse_expired
  validate_expiration-IsFresh token s end e =
      let (timestamp, s', found, refused) =
        bind-ok (get_block_timestamp services cacher token.block_hash) _ s tt end e in
      let (fresh, same) = fail_if-ok _ token_expired s' end refused in
      (
        timestamp,
        found ∙ ap (λ x. (ok timestamp, x)) same,
        ap (λ x. is_expired services cacher timestamp token.ttl x.1) (sym same) ∙ fresh,
      )

  validate_signature-IsSignedByAddress :
      (token : AuthToken) (s end : C × W)
      → validate_signature services cacher token s ≡ (ok tt, end)
      → IsSignedByAddress services token × (s ≡ end)
  unfolding validate_signature
  validate_signature-IsSignedByAddress token s end e =
      let (address, s1, decoded, rest) =
        bind-ok (lift (services.decode_address token.address)) _ s tt end e in
      let (pubkey, s2, key, checked) =
        bind-ok (lift (services.public_key_from_byte_array address)) _ s1 tt end rest in
      let (decoded', same) = lift-ok _ s address s1 decoded in
      let (key', same') = lift-ok _ s1 pubkey s2 key in
      let (signed, same'') = lift-ok _ s2 tt end checked in
      (
        (address, pubkey, decoded', key', verify_with-ok services token pubkey signed),
        same ∙ same' ∙ same'',
      )

  pub validate-IsFresh :
      (token : AuthToken) (s end : C × W)
      → (validate services cacher token s ≡ (ok tt, end))
        ↔ (IsFresh token s end × IsSignedByAddress services token)
  unfolding validate validate_expiration refuse_expired validate_signature
  validate-IsFresh token s end = (sound, complete)
    where
      sound :
          validate services cacher token s ≡ (ok tt, end)
          → IsFresh token s end × IsSignedByAddress services token
      sound e =
          let (u, s', expiration, signature) =
            bind-ok (validate_expiration services cacher token) _ s tt end e in
          let fresh = validate_expiration-IsFresh token s s' expiration in
          let (signed, same) = validate_signature-IsSignedByAddress token s' end signature in
          ((rw (sym same) fresh), signed)

      complete :
          IsFresh token s end × IsSignedByAddress services token
          → validate services cacher token s ≡ (ok tt, end)
      complete ((timestamp, found, fresh), (address, pubkey, decoded, key, signed)) = rw found (
          rw fresh
            (rw decoded (rw key (rw (IsSigned-verify_with services token pubkey signed) refl))))

  timestamp_of-again :
      (hash : Bytes) (o : Option Cached) (s : C × W) (timestamp : ℤ) (end : C × W)
      → cacher.get hash s.0 ≡ o
      → timestamp_of services cacher hash o s ≡ (ok timestamp, end)
      → cacher.get hash end.0 ≡ some (int64 timestamp)
  unfolding fetch_timestamp
  timestamp_of-again hash (some (int64 t)) s timestamp end held e =
      let same : ok t ≡ ok timestamp = ap (λ x. x.0) e in
      let value : t ≡ timestamp = ground arith in
      ap (λ x. cacher.get hash x.1.0) (sym e) ∙ (held ∙ ap (λ v. some (int64 v)) value)
  timestamp_of-again hash (some another) s timestamp end held e =
      let impossible = ap (λ x. x.0) e in ground arith
  timestamp_of-again hash none (c, w) timestamp end held e =
      remembered (get_block_by_hash services hash w) e
    where
      remembered :
          (r : Result ℤ × W)
          → remember services cacher hash r c ≡ (ok timestamp, end)
          → cacher.get hash end.0 ≡ some (int64 timestamp)
      remembered (ok t, w') e =
          let same : ok t ≡ ok timestamp = ap (λ x. x.0) e in
          let value : t ≡ timestamp = ground arith in
          ap (λ x. cacher.get hash x.1.0) (sym e)
          ∙ (cacher.get-put hash (int64 t) c ∙ ap (λ v. some (int64 v)) value)
      remembered (err x, w') e =
          let impossible : err x ≡ ok timestamp = ap (λ r. r.0) e in ground arith
      remembered (panic, w') e =
          let impossible : panic ≡ ok timestamp = ap (λ r. r.0) e in ground arith

  -- A block whose timestamp the server has got is not asked for again: whatever the world is by then,
  -- the server finds the same timestamp, and leaves the world and the cache as they are.
  get_block_timestamp-again :
      (hash : Bytes) (s : C × W) (timestamp : ℤ) (end : C × W) (later : W)
      → get_block_timestamp services cacher hash s ≡ (ok timestamp, end)
      → get_block_timestamp services cacher hash (end.0, later) ≡ (ok timestamp, (end.0, later))
  unfolding get_block_timestamp
  get_block_timestamp-again hash s timestamp end later e =
      rw (timestamp_of-again hash (cacher.get hash s.0) s timestamp end refl e) refl
