-- ===== src/NonceHandlerV1/Transactions/Addresses.antt =====
-- The handler of many addresses acts as one independent `addressNonceHandler` for each address.
use mx_sdk_erdgo.Prelude.{◌≡◌, refl, bytes_eq, ◌==◌, if◌then◌else◌}
use mx_sdk_erdgo.Prelude.Exec.{Result, Exec}
use mx_sdk_erdgo.Chain.{Address}
use mx_sdk_erdgo.Handlers
use mx_sdk_erdgo.Handlers.Laws
use mx_sdk_erdgo.NonceHandlerV1.{AddressNonceHandler, new_address_nonce_handler}
use mx_sdk_erdgo.NonceHandlerV1.Transactions.{NonceTransactionsHandler, on_handler}

-- The handler of an address: the stored one, or the one that its first use creates.
abbrev pub handler_at : NonceTransactionsHandler → Address → AddressNonceHandler
handler_at nth a = Handlers.handler_at new_address_nonce_handler nth.handlers a

module _ {W A : Type 0} (a : Address) (method : Exec (AddressNonceHandler × W) A) where
  -- A method of one address has the result and the effects of the method on that address's own
  -- handler, which it leaves in its place; the handler of every other address is as before, and so
  -- is the check for duplicates.
  pub on_handler_refines :
      (nth : NonceTransactionsHandler) (w : W) (b : Address)
      → let (r, (anh', w')) = method (handler_at nth a, w) in
        let (r', (nth', w'')) = on_handler a method (nth, w) in
        (r' ≡ r)
        × (w'' ≡ w')
        × (handler_at nth' b ≡ (if a == b then anh' else handler_at nth b))
        × (nth'.check_for_duplicates ≡ nth.check_for_duplicates)
  unfolding on_handler
  on_handler_refines nth w b =
      let facts = Laws.on_handler_refines new_address_nonce_handler a method nth.handlers w b in
      (facts.0, facts.1, facts.2, refl)

  -- The same where the method's outcome is known.
  pub on_handler_outcome :
      (nth : NonceTransactionsHandler) (w w' : W) (r : Result A) (anh : AddressNonceHandler)
      → method (handler_at nth a, w) ≡ (r, (anh, w'))
      → let (r', (nth', w'')) = on_handler a method (nth, w) in
        (r' ≡ r) × (w'' ≡ w') × (handler_at nth' a ≡ anh)
  unfolding on_handler
  on_handler_outcome nth = Laws.on_handler_outcome new_address_nonce_handler a method nth.handlers
