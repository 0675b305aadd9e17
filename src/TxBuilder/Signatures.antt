-- ===== src/TxBuilder/Signatures.antt =====
-- What the two signatures of a transaction are made of.
use mx_sdk_erdgo.Prelude.{
  ◌≡◌, sym, ap, ◌∙◌, String, Bool, true, false, not, arith, ◌==◌, nat_eq, bytes_eq,
}
use mathlib.Core.Path.{subst}
use mx_sdk_erdgo.Prelude.Exec.{ok, lift, fail_if, plain}
use mx_sdk_erdgo.Prelude.Success.{bind-ok, fail_if-ok}
use mx_sdk_erdgo.Chain.{Bytes, FrontendTransaction}
use mx_sdk_erdgo.TxConversion.{transaction_to_unsigned_tx, transaction_to_node_transaction}
use mx_sdk_erdgo.TxBuilder.{
  CryptoHolder, SigningServices, with_signature, with_guardian_signature, as_signed, sign_tx,
  sign_as_user, apply_user_signature, sign_as_guardian, apply_guardian_signature,
}

-- The transaction with this sender, and without signatures.
abbrev pub unsigned_from : FrontendTransaction → String → FrontendTransaction
unsigned_from tx sender = record tx { sender = sender; signature = ""; guardian_signature = "" }

unnegated : (b : Bool) → not b ≡ false → b ≡ true
unnegated b e = ground arith

module _ (services : SigningServices) where
  -- The signature of a holder over a transaction without signatures.
  pub record Signs (holder : CryptoHolder) (unsigned_tx : FrontendTransaction) (signature : Bytes)
      : Type 0 where
    pub message : Bytes
    pub marshalled : services.marshal unsigned_tx ≡ ok message
    pub signed :
        services.sign_byte_slice (as_signed services unsigned_tx message) holder.private_key
        ≡ ok signature

  sign_tx-ok :
      (unsigned_tx : FrontendTransaction) (holder : CryptoHolder) (tx end : FrontendTransaction)
      (signature : Bytes)
      → sign_tx services unsigned_tx holder tx ≡ (ok signature, end)
      → Signs holder unsigned_tx signature × (tx ≡ end)
  unfolding sign_tx
  sign_tx-ok unsigned_tx holder tx end signature run =
      let (message, middle, marshalled, rest) =
        bind-ok (lift (services.marshal unsigned_tx)) _ tx signature end run in
      (
        record {
          message = message;
          marshalled = ap (λ r. r.0) marshalled;
          signed = ap (λ r. r.0) rest;
        },
        ap (λ r. r.1) marshalled ∙ ap (λ r. r.1) rest,
      )

  sign_as_user-ok :
      (holder : CryptoHolder) (tx end : FrontendTransaction)
      → sign_as_user services holder tx ≡ (ok tt, end)
      → (signature : Bytes) × Signs holder (transaction_to_unsigned_tx tx) signature
        × (end ≡ with_signature signature tx)
  unfolding sign_as_user
  sign_as_user-ok holder tx end run =
      let (signature, middle, signing, rest) =
        bind-ok (sign_tx services (transaction_to_unsigned_tx tx) holder) _ tx tt end run in
      let (signs, same) =
        sign_tx-ok (transaction_to_unsigned_tx tx) holder tx middle signature signing in
      (signature, signs, sym (ap (λ r. r.1) rest) ∙ ap (with_signature signature) (sym same))

  sign_as_guardian-ok :
      (holder : CryptoHolder) (tx end : FrontendTransaction)
      → sign_as_guardian services holder tx ≡ (ok tt, end)
      → (signature : Bytes) × Signs holder (transaction_to_unsigned_tx tx) signature
        × (end ≡ with_guardian_signature signature tx)
  unfolding sign_as_guardian
  sign_as_guardian-ok holder tx end run =
      let (signature, middle, signing, rest) =
        bind-ok (sign_tx services (transaction_to_unsigned_tx tx) holder) _ tx tt end run in
      let (signs, same) =
        sign_tx-ok (transaction_to_unsigned_tx tx) holder tx middle signature signing in
      (
        signature,
        signs,
        sym (ap (λ r. r.1) rest) ∙ ap (with_guardian_signature signature) (sym same),
      )

  apply_guardian_signature-ok :
      (holder : CryptoHolder) (tx end : FrontendTransaction)
      → apply_guardian_signature services holder tx ≡ (ok tt, end)
      → (key : Bytes) × (services.converter.decode tx.guardian_addr ≡ ok key)
        × (holder.public_key ≡ ok key)
        × (sign_as_guardian services holder tx ≡ (ok tt, end))
  unfolding apply_guardian_signature
  apply_guardian_signature-ok holder tx end run =
      let (node_tx, s1, converted, r1) =
        bind-ok (lift (transaction_to_node_transaction services.converter tx)) _ tx tt end run in
      let (one, s2, flagged, r2) =
        bind-ok
          (fail_if (not (services.has_option_guardian_set node_tx))
            (plain "guardian flag is missing in the option field"))
          _ s1 tt end r1 in
      let (address, s3, decoded, r3) =
        bind-ok (lift (services.converter.decode tx.guardian_addr)) _ s2 tt end r2 in
      let (public_key, s4, held, r4) = bind-ok (lift holder.public_key) _ s3 tt end r3 in
      let (two, s5, matched, r5) =
        bind-ok
          (fail_if (not (address == public_key))
            (plain "configured guardian does not match signing guardian"))
          _ s4 tt end r4 in
      let (same_key, stay) = fail_if-ok _ _ s4 s5 matched in
      let key : address ≡ public_key =
        (bytes_eq.same_iff address public_key).0 (unnegated (address == public_key) same_key) in
      let start : tx ≡ s5 =
        ap (λ r. r.1) converted
        ∙ (fail_if-ok _ _ s1 s2 flagged).1
        ∙ ap (λ r. r.1) decoded
        ∙ ap (λ r. r.1) held
        ∙ stay in
      (
        public_key,
        ap (λ r. r.0) decoded ∙ ap (λ k. ok k) key,
        ap (λ r. r.0) held,
        ap (sign_as_guardian services holder) start ∙ r5,
      )

  -- A transaction to which the user's signature and then the guardian's was applied is as it was, but for
  -- the user as its sender and the two signatures. Both signatures are over the same transaction: the one
  -- with that sender, and without signatures. The guardian is the one that the transaction names.
  pub both_sign_same :
      (user guardian : CryptoHolder) (tx middle end : FrontendTransaction)
      → apply_user_signature services user tx ≡ (ok tt, middle)
      → apply_guardian_signature services guardian middle ≡ (ok tt, end)
      → (user_signature : Bytes) × (guardian_signature : Bytes) × (key : Bytes) × Signs user
          (unsigned_from tx user.bech32)
          user_signature
        × Signs guardian (unsigned_from tx user.bech32) guardian_signature
        × (services.converter.decode tx.guardian_addr ≡ ok key)
        × (guardian.public_key ≡ ok key)
        × (end
            ≡ with_guardian_signature guardian_signature
                (with_signature user_signature (record tx { sender = user.bech32 })))
  unfolding apply_user_signature transaction_to_unsigned_tx
  both_sign_same user guardian tx middle end run run' =
      let sent : FrontendTransaction = record tx { sender = user.bech32 } in
      let (us, signs, applied) = sign_as_user-ok user sent middle run in
      let (key, decoded, held, rest) = apply_guardian_signature-ok guardian middle end run' in
      let (gs, signs', applied') = sign_as_guardian-ok guardian middle end rest in
      let same : transaction_to_unsigned_tx middle ≡ transaction_to_unsigned_tx sent =
        ap transaction_to_unsigned_tx applied in
      (
        us,
        gs,
        key,
        signs,
        subst (λ t. Signs guardian t gs) same signs',
        ap (λ t. services.converter.decode t.guardian_addr) (sym applied) ∙ decoded,
        held,
        applied' ∙ ap (with_guardian_signature gs) applied,
      )
