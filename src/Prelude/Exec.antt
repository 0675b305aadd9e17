-- ===== src/Prelude/Exec.antt =====
-- Go functions that return a value or an error, and that change state on the way. What was
-- written before an error stays written, so the state comes back beside the error too.
use Prim.Native.String.{String}
use mathlib.Core.Logic.{◌⊎◌, inl, inr}
use mathlib.Core.Bool.{Bool, true, false}
use mathlib.Core.Option.{Option, none, some}

-- The sentinel errors of interactors/errors.go and, from `nil_signature` on, of
-- authentication/errors.go (`nil_token_address` and `invalid_cached_value` are its ErrNilAddress and
-- ErrInvalidValue), from `invalid_nonce_cross_check_value_format` on, of
-- blockchain/finalityProvider/errors.go and blockchain/errors.go; `fmt.Errorf` with `%w` (the context, without its arguments, and the wrapped
-- error), the errors that are made of a text alone, and the errors of code outside.
pub data Error : Type 0 where
  nil_proxy nil_tx_builder invalid_value wrong_password different_account_recovered : Error
  invalid_pem_file nil_address nil_transaction tx_already_sent : Error
  tx_with_same_nonce_and_gas_price_already_sent gap_nonce worker_closed : Error
  nil_signature nil_token_address nil_body token_expired invalid_cached_value : Error
  http_status_code_is_not_ok : Error
  invalid_nonce_cross_check_value_format invalid_allowed_delta_to_final node_not_started : Error
  nil_network_status shard_id_mismatch invalid_endpoint_provider not_uint64_bytes : Error
  plain : String → Error
  wrapped : String → Error → Error
  external : String → Error

-- A call returns a value, returns an error, or panics.
pub data Result (A : Type 0) : Type 0 where
  ok : A → Result A
  err : Error → Result A
  panic : Result A

abbrev pub Exec : Type 0 → Type 0 → Type 0
Exec S A = S → Result A × S

module _ {S A B : Type 0} where
  abbrev proceed : (A → Exec S B) → Result A → Exec S B
  proceed f (ok a) s = f a s
  proceed f (err e) s = (err e, s)
  proceed f panic s = (panic, s)

  infixl 5 ◌>>=◌ ◌>>◌
  abbrev pub ◌>>=◌ : Exec S A → (A → Exec S B) → Exec S B
  ◌>>=◌ m f s = let (r, s') = m s in proceed f r s'

  abbrev pub ◌>>◌ : Exec S A → Exec S B → Exec S B
  m >> n = m >>= λ _. n

abbrev pub relabel : {A : Type 0} → String → Result A → Result A
relabel context (ok a) = ok a
relabel context (err e) = err (wrapped context e)
relabel context panic = panic

module _ {S A : Type 0} where
  abbrev pub pure : A → Exec S A
  pure a s = (ok a, s)

  abbrev pub raise : Error → Exec S A
  raise e s = (err e, s)

  abbrev pub lift : Result A → Exec S A
  lift r s = (r, s)

  -- `if err != nil { return fmt.Errorf("%w …", err) }` behind a call.
  abbrev pub wrap_error : String → Exec S A → Exec S A
  wrap_error context m s = let (r, s') = m s in (relabel context r, s')

abbrev caught : {A : Type 0} → Result A → Result (A ⊎ Error)
caught (ok a) = ok (inl a)
caught (err e) = ok (inr e)
caught panic = panic

-- `v, err := …` where the error is looked at later.
abbrev pub attempt : {S A : Type 0} → Exec S A → Exec S (A ⊎ Error)
attempt m s = let (r, s') = m s in (caught r, s')

-- `if test { return err }`.
abbrev pub fail_if : {S : Type 0} → Bool → Error → Exec S (Unit {0})
fail_if true e s = (err e, s)
fail_if false e s = (ok tt, s)

-- A pointer that may be nil, tested before its use.
abbrev pub non_nil : {S A : Type 0} → Error → Option A → Exec S A
non_nil e none s = (err e, s)
non_nil e (some a) s = (ok a, s)

-- An object `H` beside the world `W` that its collaborators act on.
module _ {H W A : Type 0} where
  -- A section of code under the object's lock.
  abbrev pub locked : (H → A × H) → Exec (H × W) A
  locked f (h, w) = let (a, h') = f h in (ok a, (h', w))

  -- A call of a collaborator, made without the lock.
  abbrev pub call : Exec W A → Exec (H × W) A
  call m (h, w) = let (r, w') = m w in (r, (h, w'))
