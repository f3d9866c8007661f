-- ===== src/Common.antt =====
-- The names that the other modules share: the libraries', passed on, with Boolean tests, lists
-- measured by native numbers and the bit laws of the wire format.
mod Tests
mod Lists
mod Results
mod Int
mod Updates
pub mod Bits
pub mod OrdMap
pub mod Text
pub mod Decimal
pub mod Perms
pub use Tests.*
pub use Lists.*
pub use Results.*
pub use Int.*
pub use Updates.*
pub use Prim.Native.Nat.{ℕ, zero, suc, ◌+◌, ◌-◌, ◌*◌, ◌/◌, ◌%◌, ◌^◌, ◌≤◌, ◌<◌, min, bit_or, bit_and}
pub use mathlib.Core.Path.{◌≡◌, refl, sym, ap, subst, ◌∙◌}
pub use mathlib.Core.Logic.{◌≢◌, ◌↔◌, ◌⊎◌, inl, inr}
pub use mathlib.Core.Bool.{Bool, true, false, ◌&&◌, ◌||◌, not}
pub use mathlib.Core.Option.{Option, none, some}
pub use mathlib.Core.List.{List, [], ◌∷◌, ◌++◌, map, append-nil, append_assoc, map-append}
pub use native.Mathlib.Omega.{arith}
