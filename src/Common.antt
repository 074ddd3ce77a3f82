-- ===== src/Common.antt =====
-- What the other modules share: library names, tests, lists, words and how a Go call ends.
mod Tests
mod Lists
pub mod Bits
pub mod Words
pub mod Run
pub mod Text
pub mod Maps
pub mod Outcome
pub mod Arrays
pub use Tests.*
pub use Lists.*
pub use Prim.Native.Nat.{
  ℕ, zero, suc, ◌+◌, ◌-◌, ◌*◌, ◌/◌, ◌%◌, ◌^◌, ◌≤◌, ◌<◌, bit_and, bit_or, bit_xor,
}
pub use mathlib.Core.Path.{◌≡◌, refl, sym, ap, ◌∙◌, subst}
pub use mathlib.Core.Logic.{◌≢◌, ◌↔◌, ◌⊎◌, inl, inr}
pub use mathlib.Core.Bool.{Bool, true, false, not, ◌&&◌, ◌||◌}
pub use mathlib.Core.Option.{Option, none, some}
pub use mathlib.Core.List.{List, [], ◌∷◌, ◌++◌, map, Mem, Perm, append_assoc, append-nil}
pub use native.Mathlib.Omega.{arith}
