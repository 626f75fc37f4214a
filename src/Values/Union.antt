-- ===== src/Values/Union.antt =====
-- The `zval` of phper/src/values.rs and the accessors of phper-sys/php_wrapper.c. The union is read
-- at one of its members; a read at a member that was not written is undefined behaviour. Pointers
-- are addresses, and 0 is null. An `f64` is its bit pattern.
use phper.Base.{ℕ, ℤ, Outcome, returns, panics, undefined, Option, none, some, ◌==◌, if◌then◌else◌}
use phper.Types.{TypeInfo}

pub data Payload : Type 0 where
  unset : Payload
  long : ℤ → Payload
  double : ℕ → Payload
  str : ℕ → Payload
  arr : ℕ → Payload
  obj : ℕ → Payload
  res : ℕ → Payload
  reference : ℕ → Payload
  func : ℕ → Payload

pub record ZVal : Type 0 where
  pub type_info : ℕ
  pub value : Payload

-- `from_ptr` and `from_mut_ptr`: a panic at null.
unfoldable pub from_ptr : ℕ → Outcome ℕ
from_ptr p = if p == 0 then panics else returns p

-- `try_from_ptr` and `try_from_mut_ptr`.
unfoldable pub try_from_ptr : ℕ → Option ℕ
try_from_ptr p = if p == 0 then none else some p

unfoldable pub get_type_info : ZVal → TypeInfo
get_type_info v = record { t = v.type_info }

unfoldable pub z_lval : Payload → Outcome ℤ
z_lval (long i) = returns i
z_lval _ = undefined

unfoldable pub z_dval : Payload → Outcome ℕ
z_dval (double d) = returns d
z_dval _ = undefined

unfoldable pub z_str : Payload → Outcome ℕ
z_str (str p) = returns p
z_str _ = undefined

unfoldable pub z_arr : Payload → Outcome ℕ
z_arr (arr p) = returns p
z_arr _ = undefined

unfoldable pub z_obj : Payload → Outcome ℕ
z_obj (obj p) = returns p
z_obj _ = undefined

unfoldable pub z_res : Payload → Outcome ℕ
z_res (res p) = returns p
z_res _ = undefined

unfoldable pub z_ref : Payload → Outcome ℕ
z_ref (reference p) = returns p
z_ref _ = undefined

unfoldable pub z_func : Payload → Outcome ℕ
z_func (func p) = returns p
z_func _ = undefined

-- What a mutable reference into a value gives: the content, and the value after a write.
pub record Place (A : Type 0) : Type 0 where
  pub content : A
  pub write : A → ZVal
