-- ===== src/Strings/Terminator.antt =====
-- `ZStr::to_c_str` (phper/src/strings.rs) refuses the strings with an interior NUL.
use phper.Base.{
  ℕ, ◌+◌, ◌^◌, ◌<◌, ◌≡◌, refl, ap, List, [], ◌∷◌, ◌++◌, returns, ok, err, arith, length,
  if◌then◌else◌, has_nul, length-append, take-length,
}
use phper.Strings.{to_bytes_with_nul, from_bytes_with_nul, to_c_str}
use phper.Strings.Length.{len_exact}

scan_lem :
    (input s : List ℕ)
    → from_bytes_with_nul input (s ++ (0 ∷ []))
      ≡ (if has_nul s then err (record { input = input }) else ok s)
unfolding from_bytes_with_nul
scan_lem input [] = refl
scan_lem input (b ∷ []) = ground arith
scan_lem input (b ∷ c ∷ rest) = ground (arith, scan_lem input (c ∷ rest))

with_nul_small : (s : List ℕ) → length s < 2 ^ 31 → to_bytes_with_nul s ≡ returns (s ++ (0 ∷ []))
unfolding to_bytes_with_nul
with_nul_small s h =
    let whole : length s + 1 ≡ length (s ++ (0 ∷ [])) = omega (arith, length-append s (0 ∷ [])) in
    rw ((len_exact s).1 h) (rw whole (ap returns (take-length (s ++ (0 ∷ [])))))

-- Below 2^31 bytes `to_c_str` returns the string itself if it has no NUL byte, and else the error about
-- its bytes with the terminator.
pub to_c_str_lem :
    (s : List ℕ)
    → length s < 2 ^ 31
    → to_c_str s ≡ returns (if has_nul s then err (record { input = s ++ (0 ∷ []) }) else ok s)
unfolding to_c_str
to_c_str_lem s h = rw (with_nul_small s h) (ap returns (scan_lem (s ++ (0 ∷ [])) s))
