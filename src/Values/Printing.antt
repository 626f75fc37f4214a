-- ===== src/Values/Printing.antt =====
-- `Debug for ZVal` (phper/src/values.rs) prints the union's member.
use phper.Base.{ℕ, ◌%◌, ◌≡◌, true, false, some, returns, arith, ◌==◌, if◌then◌else◌}
use phper.Types.{PhpTypes, is_null, is_bool}
use phper.Types.Predicates.{predicates_by_tag}
use phper.Values.Union.{
  ZVal, Payload, unset, long, double, str, arr, obj, res, reference, func, z_lval, z_dval, z_str,
  z_arr, z_obj, z_res, z_ref,
}
use phper.Values.WellTyped.{Fits, IsWellTyped}
use phper.Values.Debug.{DebugField, fmt}

-- The field for a type word and a union that fits it.
abbrev pub field_by_member : ℕ → Payload → DebugField
field_by_member t (long i) = DebugField.long i
field_by_member t (double d) = DebugField.double d
field_by_member t (str p) = DebugField.str p
field_by_member t (arr p) = DebugField.arr p
field_by_member t (obj p) = DebugField.obj p
field_by_member t (res p) = DebugField.res p
field_by_member t (reference p) = DebugField.reference p
field_by_member t (func p) = DebugField.unknown
field_by_member t unset =
    if t == 1
    then DebugField.null
    else if t % 256 == 2
    then DebugField.bool false
    else if t % 256 == 3
    then DebugField.bool true
    else DebugField.unknown

module _ ⦃php : PhpTypes⦄ where
  fmt_lem :
      (t : ℕ) (m : Payload)
      → Fits (t % 256) m
      → fmt (record { type_info = t; value = m }) ≡ returns (some (field_by_member t m))
  unfolding fmt is_null is_bool z_lval z_dval z_str z_arr z_obj z_res z_ref
  fmt_lem t (long i) h = ground (arith, predicates_by_tag (record { t = t }), php.null_eq)
  fmt_lem t m h = ground (arith, predicates_by_tag (record { t = t }), php.null_eq)

  -- A well-typed value prints one field: the content of the union's member, or, where there is none,
  -- the null of the plain type word, the Boolean, and for every other word `unknown`.
  pub fmt_by_member :
      (v : ZVal) → IsWellTyped v → fmt v ≡ returns (some (field_by_member v.type_info v.value))
  fmt_by_member v h = fmt_lem v.type_info v.value h
