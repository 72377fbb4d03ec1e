-- ===== src/Common.antt =====
-- The names that the models of the Python tools share: the libraries', passed on, and those of
-- the children: tests and conditionals, lists, Python sets, texts, and errors.
mod Logic
mod Lists
pub mod Sets
pub mod Text
pub mod Dict
pub mod Order
pub mod Errors
pub mod Gather
unfoldable pub use Logic.*
unfoldable pub use Lists.*
pub use Prim.Native.Nat.{ℕ, zero, suc, ◌+◌, ◌-◌, ◌≤◌, ◌<◌}
pub use mathlib.Core.Path.{◌≡◌, refl, sym, ap, ◌∙◌, subst}
pub use mathlib.Core.Logic.{◌≢◌, ◌↔◌, ◌⊎◌, inl, inr, ⊎_elim}
pub use mathlib.Core.Bool.{Bool, true, false, not, ◌&&◌, ◌||◌}
pub use mathlib.Core.Option.{Option, none, some}
pub use mathlib.Core.List.{List, [], ◌∷◌, ◌++◌, map, map-append, append-nil}
pub use native.Mathlib.Omega.{arith}
