-- ===== src/Common.antt =====
-- What the components share: the libraries' names, passed on, Boolean tests, lists measured by
-- native numbers, machine words as bytes, and the laws of exclusive or.
mod Tests
mod Lists
mod Words
mod Print
mod Bits
pub use Tests.*
unfoldable pub use Lists.*
pub use Words.*
unfoldable pub use Print.*
pub use Bits.*
pub use Prim.Native.Nat.{ℕ, zero, suc, ◌+◌, ◌-◌, ◌*◌, ◌/◌, ◌%◌, ◌^◌, ◌≤◌, ◌<◌, bit_xor}
pub use mathlib.Core.Path.{◌≡◌, refl, sym, ap, ◌∙◌, subst}
pub use mathlib.Core.Logic.{◌≢◌, ◌↔◌, ◌⊎◌, inl, inr}
pub use mathlib.Core.Bool.{Bool, true, false, ◌&&◌, ◌||◌, not}
pub use mathlib.Core.Option.{Option, none, some}
pub use mathlib.Core.List.{List, [], ◌∷◌, ◌++◌, map, append_assoc, append-nil}
pub use native.Mathlib.Omega.{arith}
