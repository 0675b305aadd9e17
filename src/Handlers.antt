-- ===== src/Handlers.antt =====
-- The map from addresses to handlers that the three nonce transactions handlers keep (`handlers`,
-- `getOrCreateAddressNonceHandler`), over any type of handlers. The map holds pointers, so what a
-- method of a handler writes shows in the map, if the map holds that handler.
pub mod Laws
use mx_sdk_erdgo.Prelude.{Option, none, some, bytes_eq}
use mx_sdk_erdgo.Prelude.Exec.{Exec}
use mx_sdk_erdgo.Dict.{Dict, lookup, insert, overwrite}
use mx_sdk_erdgo.Chain.{Address}

module _ {H : Type 0} (new : Address → H) where
  or_new : Address → Option H → H
  or_new a none = new a
  or_new a (some handler) = handler

  -- The handler of an address: the stored one, or the one that its first use creates.
  unfoldable pub handler_at : Dict Address H → Address → H
  unfolding or_new
  handler_at handlers a = or_new a (lookup handlers a)

  -- `getOrCreateAddressNonceHandler`: the map holds the handler of the address from then on.
  unfoldable pub get_or_create : Address → Dict Address H → H × Dict Address H
  unfolding handler_at
  get_or_create a handlers =
      let handler = handler_at handlers a in (handler, insert handlers a handler)

  -- A method of the handler of an address. It writes through the pointer, and stores no handler.
  pub on_handler : {W A : Type 0} → Address → Exec (H × W) A → Exec (Dict Address H × W) A
  unfolding get_or_create
  on_handler a method (handlers, w) =
      let (handler, handlers') = get_or_create a handlers in
      let (r, (handler', w')) = method (handler, w) in (r, (overwrite handlers' a handler', w'))
