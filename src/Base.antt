-- ===== src/Base.antt =====
-- What the other modules share: the libraries' names, tests on the native numbers, lists measured
-- by them, Rust's `Result`, and runs that may panic.
mod Tests
mod Lists
mod Runs
mod Text
mod CString
mod Utf8
mod Int
mod Decimal
pub mod Bits
pub mod Steps
pub mod Places
pub use Tests.*
pub use Lists.*
pub use Runs.*
pub use Text.*
unfoldable pub use CString.{has_nul, ensure_end_with_zero}
unfoldable pub use Utf8.{is_utf8}
pub use Int.*
unfoldable pub use Decimal.{decimal}
pub use Prim.Native.Nat.{ℕ, zero, suc, ◌+◌, ◌-◌, ◌*◌, ◌/◌, ◌%◌, ◌^◌, ◌≤◌, ◌<◌}
pub use mathlib.Core.Path.{◌≡◌, refl, sym, ap, ◌∙◌}
pub use mathlib.Core.Logic.{◌≢◌, ◌↔◌, ◌⊎◌, inl, inr}
pub use mathlib.Core.Bool.{Bool, true, false, not, ◌&&◌, ◌||◌}
pub use mathlib.Core.Option.{Option, none, some}
pub use mathlib.Core.List.{List, [], ◌∷◌, ◌++◌, map, append_assoc, append-nil}
pub use native.Mathlib.Omega.{arith}
