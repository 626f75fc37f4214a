-- ===== src/Base/Decimal.antt =====
-- `to_string` of an unsigned integer.
use Prim.Native.Nat.{ℕ, zero, suc, ◌+◌, ◌/◌, ◌%◌}
use mathlib.Core.List.{List, [], ◌∷◌}
use phper.Base.Tests.{ltb, if◌then◌else◌}

-- The digits of `n` in front of `rest`; each round drops a digit, so `n + 1` rounds are enough.
decimal_loop : ℕ → ℕ → List ℕ → List ℕ
decimal_loop zero n rest = rest
decimal_loop (suc fuel) n rest =
    let more = decimal_loop fuel (n / 10) ((48 + n % 10) ∷ rest) in
    if ltb n 10 then (48 + n) ∷ rest else more

unfoldable pub decimal : ℕ → List ℕ
unfolding decimal_loop
decimal n = decimal_loop (suc n) n []
