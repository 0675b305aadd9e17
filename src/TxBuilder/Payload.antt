-- ===== src/TxBuilder/Payload.antt =====
-- What a relayed transaction of the second version carries.
use mx_sdk_erdgo.Prelude.{
  ◌≡◌, refl, sym, ap, ◌∙◌, inl, inr, Bool-cases, string_eq, some, List, [], ◌∷◌, arith, not, ◌==◌,
  nat_eq,
}
use mx_sdk_erdgo.Prelude.Exec.{Result, ok, err, panic, plain}
use mx_sdk_erdgo.Prelude.Results.{◌>>=◌, or_fail}
use mx_sdk_erdgo.Prelude.Success.{differ_err, differ_panic, ok-injective}
use mx_sdk_erdgo.Chain.{Bytes, FrontendTransaction, PubkeyConverter}
use mx_sdk_erdgo.BigInt.{pos}
use mx_sdk_erdgo.Builders.{big_int_bytes}
use mx_sdk_erdgo.Builders.Fields.{big_endian-big_int_bytes}
use mx_sdk_erdgo.Serde.SourceBuffer.{big_endian}
use mx_sdk_erdgo.Text.{join, split, split-join, HasNoSeparator}
use mx_sdk_erdgo.Text.Ascii.{codes}
use mx_sdk_erdgo.Text.Hex.{
  AreBytes, encode_to_string, decode_string, decode_string-encode_to_string,
  encode_to_string-HasNoSeparator,
}
use mx_sdk_erdgo.TxBuilder.Relayed.{
  RelayedTxV2Builder, unless, checked_inner, relayed_tx, prepare_inner_tx_for_relay_v2, build_v2,
}

module _ {A B : Type 0} where
  result_bind-ok :
      (m : Result A) (f : A → Result B) (b : B)
      → (m >>= f) ≡ ok b
      → (a : A) × (m ≡ ok a) × (f a ≡ ok b)
  result_bind-ok (ok a) f b e = (a, refl, e)
  result_bind-ok (err x) f b e = differ_err x b e
  result_bind-ok panic f b e = differ_panic b e

abbrev pub relayed_name : Bytes
relayed_name = codes "relayedTxV2"

-- The parts of the payload, and what they stand for.
pub record Carries (inner relayed : FrontendTransaction) (receiver : Bytes) : Type 0 where
  pub nonce_bytes : Bytes
  pub parts :
      split 64 relayed.payload
      ≡ relayed_name
        ∷ (encode_to_string receiver
            ∷ (encode_to_string nonce_bytes
                ∷ (encode_to_string inner.payload ∷ (codes inner.signature ∷ []))))
  pub receiver_back : decode_string (encode_to_string receiver) ≡ some receiver
  pub nonce_back : big_endian 0 nonce_bytes ≡ inner.nonce
  pub payload_back : decode_string (encode_to_string inner.payload) ≡ some inner.payload
  pub addressed : relayed.receiver ≡ inner.sender

checked_inner-same :
    (inner tx : FrontendTransaction) → checked_inner (some inner) ≡ ok tx → inner ≡ tx
unfolding checked_inner
checked_inner-same inner tx e = elim (Bool-cases (inner.signature == "")) [
  | inl empty ↦ differ_err _ _ (rw empty at e)
  | inr signed ↦ ok-injective inner tx (rw signed at e)
]

relayed_name-clean : HasNoSeparator 64 relayed_name
relayed_name-clean = ground arith

module _ (converter : PubkeyConverter) where
  build_v2-ok :
      (rtb : RelayedTxV2Builder) (inner relayed : FrontendTransaction)
      → rtb.inner_transaction ≡ some inner
      → build_v2 converter rtb ≡ ok relayed
      → (parts : List Bytes) × (prepare_inner_tx_for_relay_v2 converter inner ≡ ok parts)
        × (relayed.payload ≡ join 64 (relayed_name ∷ parts))
        × (relayed.receiver ≡ inner.sender)
  unfolding build_v2
  build_v2-ok rtb inner relayed given e =
      let (tx, checked, r1) = result_bind-ok (checked_inner rtb.inner_transaction) _ relayed e in
      let (relayer, known, r2) =
        result_bind-ok (or_fail (plain "nil relayer account") rtb.relayer_account) _ relayed r1 in
      let (config, configured, r3) =
        result_bind-ok (or_fail (plain "nil network config") rtb.network_config) _ relayed r2 in
      let (one, needed, r4) =
        result_bind-ok
          (unless (not (rtb.gas_limit_needed_for_inner_transaction == 0))
            "invalid gas limit needed for inner transaction")
          _ relayed r3 in
      let (two, zero_limit, r5) =
        result_bind-ok (unless (tx.gas_limit == 0) "gas limit of the inner transaction should be 0")
          _ relayed r4 in
      let (parts, prepared, r6) =
        result_bind-ok (prepare_inner_tx_for_relay_v2 converter tx) _ relayed r5 in
      let same = checked_inner-same inner tx (ap checked_inner (sym given) ∙ checked) in
      let made =
        ok-injective
          (relayed_tx tx relayer config "0" (join 64 (relayed_name ∷ parts))
            rtb.gas_limit_needed_for_inner_transaction)
          relayed r6 in
      (
        parts,
        ap (prepare_inner_tx_for_relay_v2 converter) same ∙ prepared,
        sym (ap (λ t. t.payload) made),
        sym (ap (λ t. t.receiver) made) ∙ sym (ap (λ t. t.sender) same),
      )

  prepared_parts :
      (inner : FrontendTransaction) (receiver : Bytes) (parts : List Bytes)
      → converter.decode inner.receiver ≡ ok receiver
      → prepare_inner_tx_for_relay_v2 converter inner ≡ ok parts
      → parts
        ≡ encode_to_string receiver
          ∷ (encode_to_string (big_int_bytes (pos inner.nonce))
              ∷ (encode_to_string inner.payload ∷ (codes inner.signature ∷ [])))
  unfolding prepare_inner_tx_for_relay_v2
  prepared_parts inner receiver parts decoded e =
      let (found, same, made) = result_bind-ok (converter.decode inner.receiver) _ parts e in
      let key : receiver ≡ found = ok-injective receiver found (sym decoded ∙ same) in
      sym (ok-injective _ parts (rw key made))

  -- A relayed transaction of the second version that is built of an inner transaction whose signature has
  -- no '@', and whose receiver is known: its payload, split at '@', is the name of the version, the
  -- receiver, the nonce and the data of the inner transaction in hexadecimal, and its signature. They are
  -- read back as they were. It is addressed to the sender of the inner transaction.
  pub build_v2-Carries :
      (rtb : RelayedTxV2Builder) (inner relayed : FrontendTransaction) (receiver : Bytes)
      → rtb.inner_transaction ≡ some inner
      → build_v2 converter rtb ≡ ok relayed
      → converter.decode inner.receiver ≡ ok receiver
      → HasNoSeparator 64 (codes inner.signature)
      → AreBytes receiver
      → AreBytes inner.payload
      → Carries inner relayed receiver
  build_v2-Carries rtb inner relayed receiver given e decoded clean small small' =
      let (parts, prepared, payload, addressed) = build_v2-ok rtb inner relayed given e in
      let nonce_bytes = big_int_bytes (pos inner.nonce) in
      let apart = encode_to_string-HasNoSeparator 64 (inr (omega arith, omega arith)) in
      let listed = prepared_parts inner receiver parts decoded prepared in
      record {
        nonce_bytes = nonce_bytes;
        parts =
            ap (split 64) (payload ∙ ap (λ ps. join 64 (relayed_name ∷ ps)) listed)
            ∙ split-join 64 relayed_name
                (encode_to_string receiver
                  ∷ (encode_to_string nonce_bytes
                      ∷ (encode_to_string inner.payload ∷ (codes inner.signature ∷ []))))
                relayed_name-clean
                (apart receiver, (apart nonce_bytes, (apart inner.payload, (clean, tt))));
        receiver_back = decode_string-encode_to_string receiver small;
        nonce_back = big_endian-big_int_bytes (pos inner.nonce);
        payload_back = decode_string-encode_to_string inner.payload small';
        addressed = addressed;
      }
