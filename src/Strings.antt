-- ===== src/Strings.antt =====
-- phper/src/strings.rs: the reads of a `ZStr`. A string is its bytes, with the NUL that the engine
-- keeps behind them. `phper_zstr_len` (phper-sys/php_wrapper.c) returns the length as a C `int`.
pub mod Length
pub mod Terminator
pub mod Debug
mod Examples
use phper.Base.{
  ℕ, suc, ◌+◌, ◌%◌, ◌^◌, Bool, List, [], ◌∷◌, ◌++◌, Outcome, returns, panics, ◌>>=◌, Result, ok,
  err, map_ok, length, take, ltb, ◌==◌, if◌then◌else◌, bytes_eq, is_utf8,
}
use phper.Errors.{Error, Utf8Error, FromBytesWithNulError}

-- The low 32 bits of the length, and whether they are a number that is not negative.
unfoldable pub zstr_len : List ℕ → Outcome ℕ
zstr_len s = let n = length s % 2 ^ 32 in if ltb n (2 ^ 31) then returns n else panics

unfoldable pub is_empty : List ℕ → Outcome Bool
unfolding zstr_len
is_empty s = do n ← zstr_len s; returns (n == 0)

unfoldable pub to_bytes : List ℕ → Outcome (List ℕ)
unfolding zstr_len
to_bytes s = do n ← zstr_len s; returns (take n s)

unfoldable pub to_bytes_with_nul : List ℕ → Outcome (List ℕ)
unfolding zstr_len
to_bytes_with_nul s = do n ← zstr_len s; returns (take (n + 1) (s ++ (0 ∷ [])))

-- `CStr::from_bytes_with_nul`: the bytes in front of a NUL that is the last byte and the only one.
unfoldable pub from_bytes_with_nul : (input s : List ℕ) → Result (List ℕ) FromBytesWithNulError
from_bytes_with_nul input [] = err (record { input = input })
from_bytes_with_nul input (b ∷ []) = if b == 0 then ok [] else err (record { input = input })
from_bytes_with_nul input (b ∷ c ∷ rest) =
    let more = from_bytes_with_nul input (c ∷ rest) in
    if b == 0 then err (record { input = input }) else map_ok (λ s. b ∷ s) more

unfoldable pub to_c_str : List ℕ → Outcome (Result (List ℕ) FromBytesWithNulError)
unfolding to_bytes_with_nul from_bytes_with_nul
to_c_str s = do b ← to_bytes_with_nul s; returns (from_bytes_with_nul b b)

unfoldable pub to_str : List ℕ → Outcome (Result (List ℕ) Utf8Error)
unfolding to_bytes is_utf8
to_str s = do b ← to_bytes s; returns (if is_utf8 b then ok b else err (record { input = b }))

-- `PartialEq` of a `ZStr` and a container of bytes.
unfoldable pub eq : List ℕ → List ℕ → Outcome Bool
unfolding to_bytes
eq s other = do b ← to_bytes s; returns (bytes_eq b other)
