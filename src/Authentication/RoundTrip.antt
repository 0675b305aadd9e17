-- ===== src/Authentication/RoundTrip.antt =====
-- Tokens that are written and read back.
use mx_sdk_erdgo.Prelude.{◌≡◌, ◌≢◌, refl, true, inl, [], ◌∷◌, ◌++◌, arith}
use mx_sdk_erdgo.Prelude.Exec.{ok, panic, Error, nil_signature, nil_token_address, nil_body}
use mx_sdk_erdgo.Prelude.Results.{◌>>=◌}
use mx_sdk_erdgo.Chain.{Bytes}
use mx_sdk_erdgo.Text.{join, split, split-join, split-part, HasNoSeparator, append_filled}
use mx_sdk_erdgo.Text.Hex.{
  AreBytes, append-AreBytes, encode_to_string, decode_string-encode_to_string,
  encode_to_string-HasNoSeparator,
}
use mx_sdk_erdgo.Text.Base64.{
  encode_handler, decode_handler-encode_handler, encode_handler-HasNoSeparator, encode_handler-nil,
  encode_handler-AreBytes,
}
use mx_sdk_erdgo.Text.Decimal.{
  format_int, is_int64, parse_int-format_int, format_int-HasNoSeparator, format_int-AreBytes,
}
use mx_sdk_erdgo.Authentication.{AuthToken, dot, get_unsigned_token, non_empty, encode, decode}

-- The fields are byte strings, the time to live is an int64, and the block hash, a text of hexadecimal
-- digits, has no dots.
abbrev pub IsWellFormed : AuthToken → Type 0
IsWellFormed token =
    AreBytes token.address
    × AreBytes token.host
    × AreBytes token.extra_info
    × AreBytes token.signature
    × AreBytes token.block_hash
    × HasNoSeparator dot token.block_hash
    × (is_int64 token.ttl ≡ true)

get_unsigned_token-split :
    (token : AuthToken)
    → IsWellFormed token
    → split dot (get_unsigned_token token)
      ≡ encode_handler token.host
        ∷ token.block_hash
        ∷ format_int token.ttl
        ∷ encode_handler token.extra_info
        ∷ []
unfolding get_unsigned_token
get_unsigned_token-split token (address, host, extra, signature, hash, clean, ttl) =
    split-join dot (encode_handler token.host)
      (token.block_hash ∷ format_int token.ttl ∷ encode_handler token.extra_info ∷ [])
      (encode_handler-HasNoSeparator token.host host)
      (
        clean,
        (
          format_int-HasNoSeparator token.ttl,
          (encode_handler-HasNoSeparator token.extra_info extra, tt),
        ),
      )

dotted-AreBytes : (p q : Bytes) → AreBytes p → AreBytes q → AreBytes (p ++ (dot ∷ q))
dotted-AreBytes p q bp bq = append-AreBytes p (dot ∷ q) bp (omega arith, bq)

get_unsigned_token-AreBytes :
    (token : AuthToken) → IsWellFormed token → AreBytes (get_unsigned_token token)
unfolding get_unsigned_token join
get_unsigned_token-AreBytes token (address, host, extra, signature, hash, clean, ttl) =
    dotted-AreBytes (encode_handler token.host) _ (encode_handler-AreBytes token.host host) (
      dotted-AreBytes token.block_hash _ hash (
        dotted-AreBytes (format_int token.ttl) _ (format_int-AreBytes token.ttl)
          (encode_handler-AreBytes token.extra_info extra)))

get_unsigned_token-filled : (token : AuthToken) → get_unsigned_token token ≢ []
unfolding get_unsigned_token join
get_unsigned_token-filled token = append_filled (encode_handler token.host) dot _

non_empty-ok : (e : Error) (bs : Bytes) → bs ≢ [] → non_empty e bs ≡ ok bs
non_empty-ok e [] filled = absurd (filled refl)
non_empty-ok e (b ∷ bs) filled = refl

-- A token with a signature and an address is written.
pub encode-ok :
    (token : AuthToken)
    → IsWellFormed token
    → token.signature ≢ []
    → token.address ≢ []
    → encode token
      ≡ ok (
          join dot (
            encode_handler token.address
            ∷ encode_handler (get_unsigned_token token)
            ∷ encode_to_string token.signature
            ∷ []))
unfolding encode
encode-ok token well signed addressed =
    let (address, host, extra, signature, hash, clean, ttl) = well in
    let body = get_unsigned_token token in
    let a =
      non_empty-ok nil_token_address (encode_handler token.address)
        (λ e. addressed (encode_handler-nil token.address address e)) in
    let b = non_empty-ok nil_body (encode_handler body) (λ e.
      get_unsigned_token-filled token
        (encode_handler-nil body (get_unsigned_token-AreBytes token well) e)) in
    rw (non_empty-ok nil_signature token.signature signed) (rw a (rw b refl))

pub decode-join :
    (token : AuthToken)
    → IsWellFormed token
    → decode (
        join dot (
          encode_handler token.address
          ∷ encode_handler (get_unsigned_token token)
          ∷ encode_to_string token.signature
          ∷ []))
      ≡ ok token
unfolding decode
decode-join token well =
    let (address, host, extra, signature, hash, clean, ttl) = well in
    let body = get_unsigned_token token in
    let are = get_unsigned_token-AreBytes token well in
    let parts =
      split-join dot (encode_handler token.address)
        (encode_handler body ∷ encode_to_string token.signature ∷ [])
        (encode_handler-HasNoSeparator token.address address)
        (
          encode_handler-HasNoSeparator body are,
          (encode_to_string-HasNoSeparator dot (inl (omega arith)) token.signature, tt),
        ) in
    rw parts (
      rw (decode_handler-encode_handler token.address address) (
        rw (decode_handler-encode_handler body are) (
          rw (decode_string-encode_to_string token.signature signature) (
            rw (get_unsigned_token-split token well) (
              rw (decode_handler-encode_handler token.host host) (
                rw (parse_int-format_int token.ttl ttl)
                  (rw (decode_handler-encode_handler token.extra_info extra) refl)))))))

-- A well-formed token that has a signature and an address is written as a text that is read back as
-- the same token.
pub decode-encode :
    (token : AuthToken)
    → IsWellFormed token
    → token.signature ≢ []
    → token.address ≢ []
    → (encode token >>= decode) ≡ ok token
decode-encode token well signed addressed =
    rw (encode-ok token well signed addressed) (decode-join token well)

-- A text without dots that is the base64 text of a byte string, as the empty one is, makes the
-- decoding panic.
decode_panics : (bs : Bytes) → AreBytes bs → decode (encode_handler bs) ≡ panic
unfolding decode
decode_panics bs all =
    rw (split-part dot (encode_handler bs) (encode_handler-HasNoSeparator bs all))
      (rw (decode_handler-encode_handler bs all) refl)
