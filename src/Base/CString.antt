-- ===== src/Base/CString.antt =====
-- `CString::new` of Rust's standard library, and phper/src/utils.rs.
use Prim.Native.Nat.{ℕ}
use mathlib.Core.Bool.{Bool, false, ◌||◌}
use mathlib.Core.List.{List, [], ◌∷◌}
use phper.Base.Tests.{◌==◌, if◌then◌else◌}
use phper.Base.Runs.{Outcome, returns, panics}

abbrev pub has_nul : List ℕ → Bool
has_nul [] = false
has_nul (b ∷ bs) = (b == 0) || has_nul bs

-- `ensure_end_with_zero`: a panic at an interior NUL. The terminator is not written out.
unfoldable pub ensure_end_with_zero : List ℕ → Outcome (List ℕ)
ensure_end_with_zero s = if has_nul s then panics else returns s
