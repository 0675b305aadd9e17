-- ===== src/Prelude.antt =====
-- The names that all modules share: the libraries', passed on, the tests on numbers and the
-- lists measured by native numbers.
mod Tests
mod Lists
mod Indexed
pub mod Exec
pub mod Results
pub mod Success
pub use Tests.*
pub use Lists.*
pub use Indexed.*
pub use Prim.Native.Nat.{ℕ, zero, suc, ◌+◌, ◌-◌, ◌*◌, ◌/◌, ◌%◌, ◌^◌, ◌≤◌, ◌<◌, min, max}
pub use Prim.Native.String.{String}
pub use mathlib.Core.Path.{◌≡◌, refl, sym, ap, ◌∙◌}
pub use mathlib.Core.Logic.{◌≢◌, ◌↔◌, ◌⊎◌, inl, inr}
pub use mathlib.Core.Bool.{Bool, true, false, ◌&&◌, ◌||◌, not}
pub use mathlib.Core.Option.{Option, none, some}
pub use mathlib.Core.List.{List, [], ◌∷◌, ◌++◌, Perm, Mem, map, append-nil, append_assoc}
pub use native.Mathlib.Omega.{arith}
