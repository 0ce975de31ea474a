-- ===== src/Common.antt =====
-- The names that all modules share: the libraries', passed on, and those of three children.
mod Tests
mod Lists
pub mod Text
pub mod Effects
pub mod Dict
pub mod Value
pub mod Trim
pub use Tests.*
pub use Lists.{
  length, take, All, Any, length-append, length-map, length-take-le, any-append, All-append,
  All-map,
}
unfoldable pub use Lists.{any, every, filter}
pub use Prim.Native.Nat.{ℕ, zero, suc, ◌+◌, ◌-◌, ◌*◌, ◌/◌, ◌%◌, ◌^◌, ◌≤◌, ◌<◌, min, max}
pub use Prim.Native.String.{String}
pub use mathlib.Core.Path.{◌≡◌, refl, sym, ap, subst, ◌∙◌, ◌≡⟨◌⟩◌, ◌∎}
pub use mathlib.Core.Logic.{◌≢◌, ◌↔◌, ◌⊎◌, inl, inr}
pub use mathlib.Core.Bool.{Bool, true, false}
unfoldable pub use mathlib.Core.Bool.{not, ◌&&◌, ◌||◌}
pub use mathlib.Core.Option.{Option, none, some}
pub use mathlib.Core.List.{List, [], ◌∷◌, ◌++◌, map, reverse, append_assoc, append-nil}
pub use native.Mathlib.Omega.{arith}
