-- ===== src/Base.antt =====
-- What the modules of the development share: library names, Boolean tests, lists measured by
-- native numbers, signed integers, Go's outcomes, byte slices, readers and text.
mod Tests
mod Lists
pub mod Cuts
pub mod Int
pub mod Outcome
pub mod Slice
pub mod Reader
pub mod Leaves
pub mod Text
pub mod Digits
unfoldable pub use Tests.*
pub use Lists.*
pub use Prim.Native.Nat.{ℕ, zero, suc, ◌+◌, ◌-◌, ◌*◌, ◌/◌, ◌%◌, ◌^◌, ◌≤◌, ◌<◌, min}
pub use mathlib.Core.Path.{◌≡◌, refl, sym, ap, ap₂, subst, ◌∙◌}
pub use mathlib.Core.Logic.{◌≢◌, ◌↔◌, ◌⊎◌, inl, inr}
pub use mathlib.Core.Bool.{Bool, true, false, not, ◌&&◌, ◌||◌}
pub use mathlib.Core.Option.{Option, none, some}
pub use mathlib.Core.List.{List, [], ◌∷◌, ◌++◌, map, append-nil, append_assoc}
pub use native.Mathlib.Omega.{arith}
