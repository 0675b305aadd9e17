-- ===== src/Prelude/Success.antt =====
-- What a run that succeeds has gone through.
use mathlib.Core.Path.{◌≡◌, refl, sym, ap}
use mathlib.Core.Bool.{Bool, true, false}
use native.Mathlib.Omega.{arith}
use mx_sdk_erdgo.Prelude.Exec.{Exec, Result, ok, err, panic, Error, ◌>>=◌, lift, fail_if, call}

pub differ_err : {B P : Type 0} (x : Error) (b : B) → err x ≡ ok b → P
differ_err x b impossible = ground arith

pub differ_panic : {B P : Type 0} (b : B) → panic ≡ ok b → P
differ_panic b impossible = ground arith

abbrev value_or : {A : Type 0} → A → Result A → A
value_or a (ok b) = b
value_or a (err e) = a
value_or a panic = a

pub ok-injective : {A : Type 0} (a b : A) → ok a ≡ ok b → a ≡ b
ok-injective a b e = ap (value_or a) e

module _ {S A B : Type 0} where
  -- A sequence that succeeds has two parts that succeed.
  pub bind-ok :
      (m : Exec S A) (f : A → Exec S B) (s : S) (b : B) (end : S)
      → (m >>= f) s ≡ (ok b, end)
      → (a : A) × (middle : S) × (m s ≡ (ok a, middle)) × (f a middle ≡ (ok b, end))
  bind-ok m f s b end e = invert (m s) refl
    where
      invert :
          (r : Result A × S)
          → m s ≡ r
          → (a : A) × (middle : S) × (m s ≡ (ok a, middle)) × (f a middle ≡ (ok b, end))
      invert (ok a, middle) run = (a, middle, run, rw run at e)
      invert (err x, middle) run =
          let failed : (err x, middle) ≡ (ok b, end) = rw run at e in
          differ_err x b (ap (λ r. r.0) failed)
      invert (panic, middle) run =
          let failed : (panic, middle) ≡ (ok b, end) = rw run at e in
          differ_panic b (ap (λ r. r.0) failed)

-- A step that succeeds, and the rest behind it.
pub ok-bind :
    {S A B : Type 0} (m : Exec S A) (f : A → Exec S B) (s : S) (a : A) (middle : S)
    → m s ≡ (ok a, middle)
    → (m >>= f) s ≡ f a middle
ok-bind m f s a middle e = rw e refl

pub ok-call :
    {H W A : Type 0} (m : Exec W A) (h : H) (w : W) (a : A) (end : W)
    → m w ≡ (ok a, end)
    → call m (h, w) ≡ (ok a, (h, end))
ok-call m h w a end e = rw e refl

pub lift-ok :
    {S A : Type 0} (r : Result A) (s : S) (a : A) (end : S)
    → lift r s ≡ (ok a, end)
    → (r ≡ ok a) × (s ≡ end)
lift-ok r s a end e = (ap (λ x. x.0) e, ap (λ x. x.1) e)

pub fail_if-ok :
    {S : Type 0} (test : Bool) (e : Error) (s end : S)
    → fail_if test e s ≡ (ok tt, end)
    → (test ≡ false) × (s ≡ end)
fail_if-ok true e s end run = let impossible : err e ≡ ok tt = ap (λ x. x.0) run in ground arith
fail_if-ok false e s end run = (refl, ap (λ x. x.1) run)

-- A call of a collaborator leaves the object as it is.
pub call-ok :
    {H W A : Type 0} (m : Exec W A) (h : H) (w : W) (a : A) (end : H × W)
    → call m (h, w) ≡ (ok a, end)
    → end.0 ≡ h
call-ok m h w a end e = sym (ap (λ x. x.1.0) e)
