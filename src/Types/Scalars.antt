-- ===== src/Types/Scalars.antt =====
-- phper/src/types.rs: `Scalar`.
use phper.Base.{ℕ, ℤ, Bool, List}

-- Copyable value, used in constants and class properties. An `f64` is its bit pattern.
pub data Scalar : Type 0 where
  null : Scalar
  bool : Bool → Scalar
  i64 : ℤ → Scalar
  f64 : ℕ → Scalar
  string : List ℕ → Scalar
  bytes : List ℕ → Scalar

-- `From<&str>` and `From<&[u8]>`.
unfoldable pub from_str : List ℕ → Scalar
from_str s = string s

unfoldable pub from_slice : List ℕ → Scalar
from_slice b = bytes b
