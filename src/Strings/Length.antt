-- ===== src/Strings/Length.antt =====
-- The length of a `ZStr` (phper/src/strings.rs) is exact below 2^31 bytes and at no length above.
use phper.Base.{ℕ, ◌^◌, ◌<◌, ◌≡◌, ◌↔◌, ap, List, returns, arith, length, take-length}
use phper.Strings.{zstr_len, to_bytes}

len_small : (s : List ℕ) → length s < 2 ^ 31 → zstr_len s ≡ returns (length s)
unfolding zstr_len
len_small s h = ground arith

-- `ZStr::len` returns the number of bytes exactly for the strings of fewer than 2^31 bytes: for a longer
-- one it panics or returns another number.
pub len_exact : (s : List ℕ) → (zstr_len s ≡ returns (length s)) ↔ (length s < 2 ^ 31)
unfolding zstr_len
len_exact s = (λ h. ground arith, len_small s)

-- Below 2^31 bytes `to_bytes` returns all bytes.
pub to_bytes_small : (s : List ℕ) → length s < 2 ^ 31 → to_bytes s ≡ returns s
unfolding to_bytes
to_bytes_small s h = rw (len_small s h) (ap returns (take-length s))
