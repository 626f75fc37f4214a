-- ===== src/Values/Debug.antt =====
-- phper/src/values.rs: `Debug for ZVal`, as the field that it prints. A value whose type word and
-- union disagree may print no field.
use phper.Base.{ℕ, ℤ, Bool, Option, none, some, Outcome, returns, ◌>>=◌, if◌then◌else◌}
use phper.Types
use phper.Types.{PhpTypes}
use phper.Values.Union.{ZVal, get_type_info}
use phper.Values.Casts.{
  as_bool, as_long, as_double, as_z_str, as_z_arr, as_z_obj, as_z_res, as_z_ref,
}

pub data DebugField : Type 0 where
  null : DebugField
  bool : Bool → DebugField
  long : ℤ → DebugField
  double : ℕ → DebugField
  str : ℕ → DebugField
  arr : ℕ → DebugField
  obj : ℕ → DebugField
  res : ℕ → DebugField
  reference : ℕ → DebugField
  unknown : DebugField

abbrev field_of {ℓ} : {A : Type ℓ} → (A → DebugField) → Option A → Option DebugField
field_of f none = none
field_of f (some a) = some (f a)

module _ ⦃php : PhpTypes⦄ where
  unfoldable pub fmt : ZVal → Outcome (Option DebugField)
  unfolding get_type_info as_bool as_long as_double as_z_str as_z_arr as_z_obj as_z_res as_z_ref
  fmt v =
      let t = get_type_info v in
      if Types.is_null t
      then returns (some null)
      else if Types.is_bool t
      then returns (field_of bool (as_bool v))
      else if Types.is_long t
      then (do x ← as_long v; returns (field_of long x))
      else if Types.is_double t
      then (do x ← as_double v; returns (field_of double x))
      else if Types.is_string t
      then (do x ← as_z_str v; returns (field_of str x))
      else if Types.is_array t
      then (do x ← as_z_arr v; returns (field_of arr x))
      else if Types.is_object t
      then (do x ← as_z_obj v; returns (field_of obj x))
      else if Types.is_resource t
      then (do x ← as_z_res v; returns (field_of res x))
      else if Types.is_reference t
      then (do x ← as_z_ref v; returns (field_of reference x))
      else returns (some unknown)
