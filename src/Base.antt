-- ===== src/Base.antt =====
-- What the modules share: names of the libraries, Boolean tests, lists over the native numbers,
-- results of fallible code, and text as a list of bytes.
mod Tests
mod Lists
mod Results
mod Text
mod Split
mod Utf8
mod Machine
mod Ordered
mod Retain
mod Trim
mod Decimal
pub use Tests.*
pub use Lists.*
unfoldable pub use Results.*
unfoldable pub use Text.*
unfoldable pub use Split.*
unfoldable pub use Utf8.*
unfoldable pub use Machine.*
unfoldable pub use Ordered.*
unfoldable pub use Retain.*
unfoldable pub use Trim.*
unfoldable pub use Decimal.*
pub use Prim.Native.Nat.{ℕ, zero, suc, ◌+◌, ◌-◌, ◌*◌, ◌/◌, ◌%◌, ◌^◌, ◌≤◌, ◌<◌}
pub use mathlib.Core.Path.{◌≡◌, refl, sym, ap, subst, ◌∙◌}
pub use mathlib.Core.Logic.{◌≢◌, ◌↔◌, ◌⊎◌, inl, inr}
pub use mathlib.Core.Bool.{Bool, true, false, not, ◌&&◌, ◌||◌}
pub use mathlib.Core.Option.{Option, none, some}
pub use mathlib.Core.List.{List, [], ◌∷◌, ◌++◌, map}
pub use native.Mathlib.Omega.{arith}
