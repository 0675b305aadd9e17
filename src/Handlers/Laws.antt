-- ===== src/Handlers/Laws.antt =====
-- A map of handlers acts as one independent handler for each address.
use mx_sdk_erdgo.Prelude.{◌≡◌, refl, ap, ◌∙◌, arith, bytes_eq, bytes_beq_iff, ◌==◌, if◌then◌else◌}
use mx_sdk_erdgo.Prelude.Exec.{Result, Exec}
use mx_sdk_erdgo.Dict.{Dict, lookup, insert, lookup-insert, lookup-overwrite}
use mx_sdk_erdgo.Chain.{Address}
use mx_sdk_erdgo.Handlers.{or_new, handler_at, on_handler}

module _ {H : Type 0} (new : Address → H) {W A : Type 0} (a : Address)
    (method : Exec (H × W) A) where
  -- The method has the result and the effects that it has on the address's own handler, which it
  -- leaves in its place; the handler of every other address is as before.
  pub on_handler_refines :
      (m : Dict Address H) (w : W) (b : Address)
      → let (r, (h, w')) = method (handler_at new m a, w) in
        let (r', (m', w'')) = on_handler new a method (m, w) in
        (r' ≡ r) × (w'' ≡ w') × (handler_at new m' b ≡ (if a == b then h else handler_at new m b))
  unfolding on_handler handler_at
  on_handler_refines m w b =
      let h = or_new new a (lookup m a) in
      (
        refl,
        refl,
        ground
            (arith, lookup-insert m a b h, lookup-overwrite (insert m a h) a b (method (h, w)).1.0),
      )

  -- The same where the method's outcome is known.
  pub on_handler_outcome :
      (m : Dict Address H) (w w' : W) (r : Result A) (h : H)
      → method (handler_at new m a, w) ≡ (r, (h, w'))
      → let (r', (m', w'')) = on_handler new a method (m, w) in
        (r' ≡ r) × (w'' ≡ w') × (handler_at new m' a ≡ h)
  on_handler_outcome m w w' r h e =
      let facts = on_handler_refines m w a in
      (
        facts.0 ∙ ap (λ x. x.0) e,
        facts.1 ∙ ap (λ x. x.1.1) e,
        facts.2 ∙ rw ((bytes_beq_iff a a).1 refl) (ap (λ x. x.1.0) e),
      )
