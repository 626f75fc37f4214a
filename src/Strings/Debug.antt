-- ===== src/Strings/Debug.antt =====
-- phper/src/strings.rs: `Debug` of a `ZStr` and a `ZString`.
use phper.Base.{
  ℕ, ◌^◌, ◌<◌, ◌≡◌, refl, List, Outcome, returns, ◌>>=◌, Result, ok, err, bytes, length, has_nul,
  ◌++◌, ◌∷◌, [], if◌then◌else◌,
}
use phper.Errors.{FromBytesWithNulError}
use phper.Strings.{to_c_str}
use phper.Strings.Terminator.{to_c_str_lem}

-- `f.debug_tuple(name)` with the C string, or the error of the conversion.
pub record DebugString : Type 0 where
  pub name : List ℕ
  pub field : Result (List ℕ) FromBytesWithNulError

unfoldable pub common_fmt : List ℕ → List ℕ → Outcome DebugString
unfolding to_c_str
common_fmt this name = do r ← to_c_str this; returns (record { name = name; field = r })

unfoldable pub fmt_z_str : List ℕ → Outcome DebugString
unfolding common_fmt
fmt_z_str this = common_fmt this (bytes "ZStr")

unfoldable pub fmt_z_string : List ℕ → Outcome DebugString
unfolding common_fmt
fmt_z_string this = common_fmt this (bytes "ZString")

-- A string with an interior NUL is printed as the error about it.
common_fmt_lem :
    (s name : List ℕ)
    → length s < 2 ^ 31
    → common_fmt s name
      ≡ returns (record {
        name = name;
        field = if has_nul s then err (record { input = s ++ (0 ∷ []) }) else ok s;
      })
unfolding common_fmt
common_fmt_lem s name h = rw (to_c_str_lem s h) refl
