-- ===== src/Base.antt =====
-- Names that the modules of the development share: the libraries', passed on, Boolean tests,
-- lists over the native numbers, and Go's (value, error) pairs.
mod Tests
mod Lists
mod Errors
mod Maps
mod Text
pub mod Int
pub mod Keys
pub use Tests.*
pub use Lists.*
pub use Errors.*
pub use Text.*
pub use Maps.{
  Eq, bytes_beq, bytes_beq_refl, bytes_beq_iff, nat_eq, bytes_eq, pair_eq, beq_refl, lookup-insert,
  lookup-erase, lookup-insert_self, lookup-erase_self, length-insert,
}
unfoldable pub use Maps.{lookup, insert, erase}
pub use Prim.Native.Nat.{ℕ, zero, suc, ◌+◌, ◌-◌, ◌*◌, ◌/◌, ◌%◌, ◌^◌, ◌≤◌, ◌<◌, min}
pub use mathlib.Core.Path.{◌≡◌, refl, sym, ap, ap₂, ◌∙◌}
pub use mathlib.Core.Logic.{◌≢◌, ◌↔◌, ◌⊎◌, inl, inr}
pub use mathlib.Core.Bool.{Bool, true, false, not, ◌&&◌, ◌||◌}
pub use mathlib.Core.Option.{Option, none, some}
pub use mathlib.Core.List.{List, [], ◌∷◌, ◌++◌, map, append_assoc, append-nil}
unfoldable pub use mathlib.Core.List.{flatten}
pub use native.Mathlib.Omega.{arith}
