-- ===== src/Prelude/Results.antt =====
-- Go functions that change no state: a value, an error or a panic.
use mathlib.Core.Option.{Option, none, some}
use mx_sdk_erdgo.Prelude.Exec.{Result, ok, err, panic, Error}

infixl 5 ◌>>=◌
abbrev pub ◌>>=◌ : {A B : Type 0} → Result A → (A → Result B) → Result B
ok a >>= f = f a
err e >>= f = err e
panic >>= f = panic

-- An operation with the result `none` where Go returns the error.
abbrev pub or_fail : {A : Type 0} → Error → Option A → Result A
or_fail e none = err e
or_fail e (some a) = ok a

-- An access that panics out of range.
abbrev pub or_panic : {A : Type 0} → Option A → Result A
or_panic none = panic
or_panic (some a) = ok a
