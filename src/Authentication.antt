-- ===== src/Authentication.antt =====
-- The folder authentication/native: token.go, and tokenHandler.go, which writes a token as a text and
-- reads it back. Texts are their bytes.
pub mod RoundTrip
pub mod Time
pub mod Server
pub mod Client
pub mod Examples
use mx_sdk_erdgo.Prelude.{ℕ, Option, none, some, List, [], ◌∷◌, ◌++◌, at}
use mx_sdk_erdgo.Prelude.Exec.{
  Result, ok, err, Error, external, nil_signature, nil_token_address, nil_body,
}
use mx_sdk_erdgo.Prelude.Results.{◌>>=◌, or_fail, or_panic}
use mx_sdk_erdgo.Chain.{Bytes}
use mx_sdk_erdgo.BigInt.{ℤ}
use mx_sdk_erdgo.Text.{join, split}
use mx_sdk_erdgo.Text.Hex.{encode_to_string, decode_string}
use mx_sdk_erdgo.Text.Base64.{encode_handler, decode_handler}
use mx_sdk_erdgo.Text.Decimal.{format_int, parse_int}

-- `ttl` is an int64, in seconds.
pub record AuthToken : Type 0 where
  pub ttl : ℤ
  pub address : Bytes
  pub host : Bytes
  pub extra_info : Bytes
  pub signature : Bytes
  pub block_hash : Bytes

-- The character `.`.
abbrev pub dot : ℕ
dot = 46

unfoldable pub get_unsigned_token : AuthToken → Bytes
get_unsigned_token token = join dot (
    encode_handler token.host
    ∷ token.block_hash
    ∷ format_int token.ttl
    ∷ encode_handler token.extra_info
    ∷ [])

unfoldable pub get_signable_message : Bytes → Bytes → Bytes
get_signable_message address unsigned_token = address ++ unsigned_token

-- With `{}` at the end.
unfoldable pub get_signable_message_legacy : Bytes → Bytes → Bytes
get_signable_message_legacy address unsigned_token = address ++ (unsigned_token ++ (123 ∷ 125 ∷ []))

-- `if len(part) == 0 { return "", e }`
abbrev pub non_empty : Error → Bytes → Result Bytes
non_empty e [] = err e
non_empty e (b ∷ bs) = ok (b ∷ bs)

unfoldable pub encode : AuthToken → Result Bytes
unfolding get_unsigned_token
encode token = do
  signature ← non_empty nil_signature token.signature
  encoded_address ← non_empty nil_token_address (encode_handler token.address)
  encoded_token ← non_empty nil_body (encode_handler (get_unsigned_token token))
  ok (join dot (encoded_address ∷ encoded_token ∷ encode_to_string signature ∷ []))

abbrev pub base64_part : Bytes → Result Bytes
base64_part text = or_fail (external "base64: illegal data") (decode_handler text)

-- `strs[i]` panics where there are too few parts.
unfoldable pub decode : Bytes → Result AuthToken
decode access_token =
    let strs = split dot access_token in
    do
      first ← or_panic (at strs 0)
      address ← base64_part first
      second ← or_panic (at strs 1)
      body ← base64_part second
      third ← or_panic (at strs 2)
      signature ← or_fail (external "hex: invalid text") (decode_string third)
      let parts = split dot body
      encoded_host ← or_panic (at parts 0)
      host ← base64_part encoded_host
      block_hash ← or_panic (at parts 1)
      decimal ← or_panic (at parts 2)
      ttl ← or_fail (external "strconv.ParseInt") (parse_int decimal)
      encoded_extra_info ← or_panic (at parts 3)
      extra_info ← base64_part encoded_extra_info
      ok record {
        ttl = ttl;
        address = address;
        host = host;
        extra_info = extra_info;
        signature = signature;
        block_hash = block_hash;
      }
