-- ===== src/Base/Utf8.antt =====
-- `str::from_utf8` of Rust's standard library: the table of well-formed UTF-8.
use Prim.Native.Nat.{ℕ, zero, suc}
use mathlib.Core.Bool.{Bool, true, false, ◌&&◌}
use mathlib.Core.Option.{Option, none, some}
use mathlib.Core.List.{List, [], ◌∷◌}
use phper.Base.Tests.{ltb, leb, ◌==◌, if◌then◌else◌}

-- For a leading byte: how many bytes follow, and the range of the first of them.
abbrev pub follow : ℕ → Option (ℕ × ℕ × ℕ)
follow b =
    if ltb b 0x80
    then some (0, 0x80, 0xBF)
    else if ltb b 0xC2
    then none
    else if leb b 0xDF
    then some (1, 0x80, 0xBF)
    else if b == 0xE0
    then some (2, 0xA0, 0xBF)
    else if b == 0xED
    then some (2, 0x80, 0x9F)
    else if leb b 0xEF
    then some (2, 0x80, 0xBF)
    else if b == 0xF0
    then some (3, 0x90, 0xBF)
    else if leb b 0xF3
    then some (3, 0x80, 0xBF)
    else if b == 0xF4
    then some (3, 0x80, 0x8F)
    else none

-- `n` more bytes are due, the next one between `lo` and `hi`.
utf8_run : ℕ → ℕ → ℕ → List ℕ → Bool
utf8_run zero lo hi [] = true
utf8_run (suc n) lo hi [] = false
utf8_run zero lo hi (b ∷ bs) = elim (follow b) [
  | none ↦ false
  | some (n, lo', hi') ↦ utf8_run n lo' hi' bs
]
utf8_run (suc n) lo hi (b ∷ bs) = (leb lo b && leb b hi) && utf8_run n 0x80 0xBF bs

unfoldable pub is_utf8 : List ℕ → Bool
unfolding utf8_run
is_utf8 bs = utf8_run 0 0 0 bs
