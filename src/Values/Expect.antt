-- ===== src/Values/Expect.antt =====
-- phper/src/values.rs: the `expect_*` methods. Each tests the type word, then reads the union.
use phper.Base.{
  ℕ, ℤ, Bool, true, false, Outcome, returns, ◌>>=◌, Result, ok, err, map_ok, if◌then◌else◌,
}
use phper.Types
use phper.Types.{PhpTypes, TypeInfo}
use phper.Errors.{Error}
use phper.Values.Union.{
  ZVal, long, double, Place, from_ptr, get_type_info, z_lval, z_dval, z_str, z_arr, z_obj, z_res,
  z_ref,
}

module _ ⦃php : PhpTypes⦄ where
  expect_type_error : TypeInfo → ZVal → Error
  unfolding get_type_info
  expect_type_error expected v =
      Error.expect_type (record { expect_type = expected; actual_type = get_type_info v })

  unfoldable pub expect_null : ZVal → Result (Unit {0}) Error
  unfolding expect_type_error get_type_info
  expect_null v =
      if Types.is_null (get_type_info v) then ok tt else err (expect_type_error Types.null v)

  unfoldable pub expect_bool : ZVal → Result Bool Error
  unfolding expect_type_error get_type_info
  expect_bool v =
      let t = get_type_info v in
      if Types.is_true t
      then ok true
      else if Types.is_false t
      then ok false
      else err (expect_type_error Types.bool v)

  unfoldable pub inner_expect_long : ZVal → Outcome (Result (Place ℤ) Error)
  unfolding expect_type_error get_type_info
  inner_expect_long v =
      if Types.is_long (get_type_info v)
      then (do
        x ← z_lval v.value
        returns (ok (record { content = x; write = λ y. record v { value = long y } })))
      else returns (err (expect_type_error Types.long v))

  unfoldable pub expect_long : ZVal → Outcome (Result ℤ Error)
  unfolding inner_expect_long
  expect_long v = do r ← inner_expect_long v; returns (map_ok (λ p. p.content) r)

  unfoldable pub expect_mut_long : ZVal → Outcome (Result (Place ℤ) Error)
  unfolding inner_expect_long
  expect_mut_long v = inner_expect_long v

  unfoldable pub inner_expect_double : ZVal → Outcome (Result (Place ℕ) Error)
  unfolding expect_type_error get_type_info
  inner_expect_double v =
      if Types.is_double (get_type_info v)
      then (do
        x ← z_dval v.value
        returns (ok (record { content = x; write = λ y. record v { value = double y } })))
      else returns (err (expect_type_error Types.double v))

  unfoldable pub expect_double : ZVal → Outcome (Result ℕ Error)
  unfolding inner_expect_double
  expect_double v = do r ← inner_expect_double v; returns (map_ok (λ p. p.content) r)

  unfoldable pub expect_mut_double : ZVal → Outcome (Result (Place ℕ) Error)
  unfolding inner_expect_double
  expect_mut_double v = inner_expect_double v

  unfoldable pub inner_expect_z_str : ZVal → Outcome (Result ℕ Error)
  unfolding expect_type_error get_type_info from_ptr
  inner_expect_z_str v =
      if Types.is_string (get_type_info v)
      then (do p ← z_str v.value; p ← from_ptr p; returns (ok p))
      else returns (err (expect_type_error Types.string v))

  unfoldable pub expect_z_str : ZVal → Outcome (Result ℕ Error)
  unfolding inner_expect_z_str
  expect_z_str v = inner_expect_z_str v

  unfoldable pub expect_mut_z_str : ZVal → Outcome (Result ℕ Error)
  unfolding inner_expect_z_str
  expect_mut_z_str v = inner_expect_z_str v

  unfoldable pub inner_expect_z_arr : ZVal → Outcome (Result ℕ Error)
  unfolding expect_type_error get_type_info from_ptr
  inner_expect_z_arr v =
      if Types.is_array (get_type_info v)
      then (do p ← z_arr v.value; p ← from_ptr p; returns (ok p))
      else returns (err (expect_type_error Types.array v))

  unfoldable pub expect_z_arr : ZVal → Outcome (Result ℕ Error)
  unfolding inner_expect_z_arr
  expect_z_arr v = inner_expect_z_arr v

  unfoldable pub expect_mut_z_arr : ZVal → Outcome (Result ℕ Error)
  unfolding inner_expect_z_arr
  expect_mut_z_arr v = inner_expect_z_arr v

  unfoldable pub inner_expect_z_obj : ZVal → Outcome (Result ℕ Error)
  unfolding expect_type_error get_type_info from_ptr
  inner_expect_z_obj v =
      if Types.is_object (get_type_info v)
      then (do p ← z_obj v.value; p ← from_ptr p; returns (ok p))
      else returns (err (expect_type_error Types.object v))

  unfoldable pub expect_z_obj : ZVal → Outcome (Result ℕ Error)
  unfolding inner_expect_z_obj
  expect_z_obj v = inner_expect_z_obj v

  unfoldable pub expect_mut_z_obj : ZVal → Outcome (Result ℕ Error)
  unfolding inner_expect_z_obj
  expect_mut_z_obj v = inner_expect_z_obj v

  unfoldable pub inner_expect_z_res : ZVal → Outcome (Result ℕ Error)
  unfolding expect_type_error get_type_info from_ptr
  inner_expect_z_res v =
      if Types.is_resource (get_type_info v)
      then (do p ← z_res v.value; p ← from_ptr p; returns (ok p))
      else returns (err (expect_type_error Types.resource v))

  unfoldable pub expect_z_res : ZVal → Outcome (Result ℕ Error)
  unfolding inner_expect_z_res
  expect_z_res v = inner_expect_z_res v

  unfoldable pub expect_mut_z_res : ZVal → Outcome (Result ℕ Error)
  unfolding inner_expect_z_res
  expect_mut_z_res v = inner_expect_z_res v

  unfoldable pub inner_expect_z_ref : ZVal → Outcome (Result ℕ Error)
  unfolding expect_type_error get_type_info from_ptr
  inner_expect_z_ref v =
      if Types.is_reference (get_type_info v)
      then (do p ← z_ref v.value; p ← from_ptr p; returns (ok p))
      else returns (err (expect_type_error Types.reference v))

  unfoldable pub expect_z_ref : ZVal → Outcome (Result ℕ Error)
  unfolding inner_expect_z_ref
  expect_z_ref v = inner_expect_z_ref v

  unfoldable pub expect_mut_z_ref : ZVal → Outcome (Result ℕ Error)
  unfolding inner_expect_z_ref
  expect_mut_z_ref v = inner_expect_z_ref v
