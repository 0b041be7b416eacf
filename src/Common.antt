-- ===== src/Common.antt =====
-- The names that every module shares: the libraries', passed on, and those of the children.
-- `Json` has the values of a dynamic language that flow graphs are made of.
mod Tests
mod Lists
mod Texts
mod Raising
pub mod Json
pub mod Print
pub mod Store
pub mod Chars
pub mod Assoc
pub use Tests.*
pub use Lists.*
unfoldable pub use Texts.*
unfoldable pub use Raising.*
pub use Prim.Native.Nat.{ℕ, zero, suc, ◌+◌, ◌-◌, ◌*◌, ◌/◌, ◌%◌, ◌≤◌, ◌<◌, min, max}
pub use Prim.Native.String.{String}
pub use mathlib.Core.Path.{◌≡◌, refl, sym, ap, ◌∙◌}
pub use mathlib.Core.Logic.{◌≢◌, ◌↔◌, ◌⊎◌, inl, inr}
pub use mathlib.Core.Bool.{Bool, true, false, not, ◌&&◌, ◌||◌}
pub use mathlib.Core.Option.{Option, none, some}
pub use mathlib.Core.List.{List, [], ◌∷◌, ◌++◌, map, append-nil, append_assoc}
pub use native.Mathlib.Omega.{arith}
