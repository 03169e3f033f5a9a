-- ===== src/Base.antt =====
-- What every part of the model shares: the libraries' names, Boolean tests, lists read as Go
-- slices of bytes, and association lists read as Go maps.
mod Tests
mod Lists
mod Memory
mod Assoc
pub mod Bits
mod Disk
mod Fault
mod Int
pub use Tests.*
unfoldable pub use Lists.*
pub use Memory.*
unfoldable pub use Assoc.*
pub use Disk.*
pub use Fault.*
pub use Int.*
pub use Prim.Native.Nat.{ℕ, zero, suc, ◌+◌, ◌-◌, ◌*◌, ◌/◌, ◌%◌, ◌^◌, ◌≤◌, ◌<◌}
pub use mathlib.Core.Path.{◌≡◌, refl, sym, ap, ◌∙◌}
pub use mathlib.Core.Logic.{◌≢◌, ◌↔◌, ◌⊎◌, inl, inr}
pub use mathlib.Core.Bool.{Bool, true, false, not, ◌&&◌, ◌||◌}
pub use mathlib.Core.Option.{Option, none, some}
pub use mathlib.Core.List.{List, [], ◌∷◌, ◌++◌, map}
pub use native.Mathlib.Omega.{arith}
