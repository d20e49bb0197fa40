-- ===== src/Base.antt =====
-- Names that every other file shares: the libraries', passed on, Boolean tests on numbers, lists
-- measured by native numbers, results, Go's byte strings and its 64-bit signed integers.
mod Tests
mod Lists
mod Results
pub mod Bytes
pub mod Int64
pub mod Decimal
pub mod Words
pub mod Hex
pub mod Keys
pub mod Maps
pub mod Perms
pub mod ParseInt
pub mod Digits
pub use Tests.*
pub use Lists.*
pub use Results.*
pub use Prim.Native.Nat.{ℕ, zero, suc, ◌+◌, ◌-◌, ◌*◌, ◌/◌, ◌%◌, ◌^◌, ◌≤◌, ◌<◌}
pub use mathlib.Core.Path.{◌≡◌, refl, sym, ap, ◌∙◌, subst}
pub use mathlib.Core.Logic.{◌≢◌, ◌↔◌, ◌⊎◌, inl, inr}
pub use mathlib.Core.Bool.{Bool, true, false, not, ◌&&◌, ◌||◌}
pub use mathlib.Core.Option.{Option, none, some}
pub use mathlib.Core.List.{List, [], ◌∷◌, ◌++◌, map, append_assoc, append-nil}
pub use native.Mathlib.Omega.{arith}
