-- ===== src/Values/WellTyped.antt =====
-- Values whose union was written at the member that the type word names. On them the `expect_*`
-- methods of phper/src/values.rs, which test the type word, amount to a match on the union.
use phper.Base.{
  refl, ◌∙◌, Bool, true, false, ◌==◌, if◌then◌else◌, ℕ, ℤ, ◌%◌, ◌≤◌, ◌<◌, ◌≡◌, ◌≢◌, ◌⊎◌, returns,
  Result, ok, err, arith,
}
use phper.Types
use phper.Types.{PhpTypes, TypeInfo, is_null}
use phper.Types.Predicates.{predicates_by_tag}
use phper.Errors.{Error, expect_type}
use phper.Values.Union.{
  Place, ZVal, Payload, unset, long, double, str, arr, obj, res, reference, func, z_lval, z_dval,
  z_str, z_arr, z_obj, z_res, z_ref,
}
use phper.Values.Expect.{
  expect_null, expect_bool, expect_long, expect_double, expect_z_str, expect_z_arr, expect_z_obj,
  expect_z_res, expect_z_ref, expect_mut_long, expect_mut_double, expect_mut_z_str,
  expect_mut_z_arr, expect_mut_z_obj, expect_mut_z_res, expect_mut_z_ref,
}

-- The union's member for each low byte of the type word; pointers are not null.
abbrev pub Fits : ℕ → Payload → Type 0
Fits b unset = (b ≤ 3) ⊎ (10 < b)
Fits b (long i) = b ≡ 4
Fits b (double d) = b ≡ 5
Fits b (str p) = (b ≡ 6) × (p ≢ 0)
Fits b (arr p) = (b ≡ 7) × (p ≢ 0)
Fits b (obj p) = (b ≡ 8) × (p ≢ 0)
Fits b (res p) = (b ≡ 9) × (p ≢ 0)
Fits b (reference p) = (b ≡ 10) × (p ≢ 0)
Fits b (func p) = 10 < b

abbrev pub IsWellTyped : ZVal → Type 0
IsWellTyped v = Fits (v.type_info % 256) v.value

module _ ⦃php : PhpTypes⦄ where
  -- The error that names the expected type and the type of the value.
  abbrev pub mismatch : TypeInfo → ℕ → Error
  mismatch expected t =
      expect_type (record { expect_type = expected; actual_type = record { t = t } })

  abbrev pub long_of : ℕ → Payload → Result ℤ Error
  long_of t (long x) = ok x
  long_of t _ = err (mismatch Types.long t)

  abbrev pub double_of : ℕ → Payload → Result ℕ Error
  double_of t (double x) = ok x
  double_of t _ = err (mismatch Types.double t)

  abbrev pub z_str_of : ℕ → Payload → Result ℕ Error
  z_str_of t (str x) = ok x
  z_str_of t _ = err (mismatch Types.string t)

  abbrev pub z_arr_of : ℕ → Payload → Result ℕ Error
  z_arr_of t (arr x) = ok x
  z_arr_of t _ = err (mismatch Types.array t)

  abbrev pub z_obj_of : ℕ → Payload → Result ℕ Error
  z_obj_of t (obj x) = ok x
  z_obj_of t _ = err (mismatch Types.object t)

  abbrev pub z_res_of : ℕ → Payload → Result ℕ Error
  z_res_of t (res x) = ok x
  z_res_of t _ = err (mismatch Types.resource t)

  abbrev pub z_ref_of : ℕ → Payload → Result ℕ Error
  z_ref_of t (reference x) = ok x
  z_ref_of t _ = err (mismatch Types.reference t)

  long_of_lem :
      (t : ℕ) (x : Payload)
      → Fits (t % 256) x
      → expect_long (record { type_info = t; value = x }) ≡ returns (long_of t x)
  unfolding expect_long z_lval
  long_of_lem t (long x) h = ground (arith, (predicates_by_tag (record { t = t })).2)
  long_of_lem t x h = ground (arith, (predicates_by_tag (record { t = t })).2)

  double_of_lem :
      (t : ℕ) (x : Payload)
      → Fits (t % 256) x
      → expect_double (record { type_info = t; value = x }) ≡ returns (double_of t x)
  unfolding expect_double z_dval
  double_of_lem t (double x) h = ground (arith, (predicates_by_tag (record { t = t })).3)
  double_of_lem t x h = ground (arith, (predicates_by_tag (record { t = t })).3)

  z_str_of_lem :
      (t : ℕ) (x : Payload)
      → Fits (t % 256) x
      → expect_z_str (record { type_info = t; value = x }) ≡ returns (z_str_of t x)
  unfolding expect_z_str z_str
  z_str_of_lem t (str x) h = ground (arith, (predicates_by_tag (record { t = t })).4)
  z_str_of_lem t x h = ground (arith, (predicates_by_tag (record { t = t })).4)

  z_arr_of_lem :
      (t : ℕ) (x : Payload)
      → Fits (t % 256) x
      → expect_z_arr (record { type_info = t; value = x }) ≡ returns (z_arr_of t x)
  unfolding expect_z_arr z_arr
  z_arr_of_lem t (arr x) h = ground (arith, (predicates_by_tag (record { t = t })).5)
  z_arr_of_lem t x h = ground (arith, (predicates_by_tag (record { t = t })).5)

  z_obj_of_lem :
      (t : ℕ) (x : Payload)
      → Fits (t % 256) x
      → expect_z_obj (record { type_info = t; value = x }) ≡ returns (z_obj_of t x)
  unfolding expect_z_obj z_obj
  z_obj_of_lem t (obj x) h = ground (arith, (predicates_by_tag (record { t = t })).6)
  z_obj_of_lem t x h = ground (arith, (predicates_by_tag (record { t = t })).6)

  z_res_of_lem :
      (t : ℕ) (x : Payload)
      → Fits (t % 256) x
      → expect_z_res (record { type_info = t; value = x }) ≡ returns (z_res_of t x)
  unfolding expect_z_res z_res
  z_res_of_lem t (res x) h = ground (arith, (predicates_by_tag (record { t = t })).7)
  z_res_of_lem t x h = ground (arith, (predicates_by_tag (record { t = t })).7)

  z_ref_of_lem :
      (t : ℕ) (x : Payload)
      → Fits (t % 256) x
      → expect_z_ref (record { type_info = t; value = x }) ≡ returns (z_ref_of t x)
  unfolding expect_z_ref z_ref
  z_ref_of_lem t (reference x) h = ground (arith, (predicates_by_tag (record { t = t })).8)
  z_ref_of_lem t x h = ground (arith, (predicates_by_tag (record { t = t })).8)

  -- No member of the union belongs to null and the Booleans: the type word alone tells them, null as the
  -- plain word.
  abbrev pub null_of : ℕ → Result (Unit {0}) Error
  null_of t = if t == 1 then ok tt else err (mismatch Types.null t)

  abbrev pub bool_of : ℕ → Result Bool Error
  bool_of t =
      if t % 256 == 3
      then ok true
      else if t % 256 == 2
      then ok false
      else err (mismatch Types.bool t)

  -- A place in the union: what stands there, and the value after a write, of the same type word.
  abbrev pub mut_long_of : ℕ → Payload → Result (Place ℤ) Error
  mut_long_of t (long x) =
      ok (record { content = x; write = λ y. record { type_info = t; value = long y } })
  mut_long_of t _ = err (mismatch Types.long t)

  abbrev pub mut_double_of : ℕ → Payload → Result (Place ℕ) Error
  mut_double_of t (double x) =
      ok (record { content = x; write = λ y. record { type_info = t; value = double y } })
  mut_double_of t _ = err (mismatch Types.double t)

  null_of_lem : (v : ZVal) → expect_null v ≡ null_of v.type_info
  unfolding expect_null is_null
  null_of_lem v = rw php.null_eq refl

  bool_of_lem : (v : ZVal) → expect_bool v ≡ bool_of v.type_info
  unfolding expect_bool
  bool_of_lem v =
      let tags = predicates_by_tag (record { t = v.type_info }) in rw (tags.0, tags.1) refl

  mut_long_of_lem :
      (t : ℕ) (x : Payload)
      → Fits (t % 256) x
      → expect_mut_long (record { type_info = t; value = x }) ≡ returns (mut_long_of t x)
  unfolding expect_mut_long z_lval
  mut_long_of_lem t (long x) h = ground (arith, (predicates_by_tag (record { t = t })).2)
  mut_long_of_lem t x h = ground (arith, (predicates_by_tag (record { t = t })).2)

  mut_double_of_lem :
      (t : ℕ) (x : Payload)
      → Fits (t % 256) x
      → expect_mut_double (record { type_info = t; value = x }) ≡ returns (mut_double_of t x)
  unfolding expect_mut_double z_dval
  mut_double_of_lem t (double x) h = ground (arith, (predicates_by_tag (record { t = t })).3)
  mut_double_of_lem t x h = ground (arith, (predicates_by_tag (record { t = t })).3)

  -- The `expect_mut_*` methods of the pointers give the same pointer.
  same_pointers :
      (v : ZVal)
      → (expect_mut_z_str v ≡ expect_z_str v)
        × (expect_mut_z_arr v ≡ expect_z_arr v)
        × (expect_mut_z_obj v ≡ expect_z_obj v)
        × (expect_mut_z_res v ≡ expect_z_res v)
        × (expect_mut_z_ref v ≡ expect_z_ref v)
  unfolding expect_mut_z_str expect_z_str expect_mut_z_arr expect_z_arr expect_mut_z_obj
      expect_z_obj expect_mut_z_res expect_z_res expect_mut_z_ref expect_z_ref
  same_pointers v = (refl, refl, refl, refl, refl)

  -- On a well-typed value each `expect_*` and each `expect_mut_*` method is defined and does not panic:
  -- it returns the content of the union's member, or the place of it, if the union was written at the
  -- type asked for, and else the error that names the type asked for and the value's type; `expect_null`
  -- and `expect_bool` return what the type word tells, or that error.
  pub expect_by_member :
      (v : ZVal)
      → IsWellTyped v
      → (expect_long v ≡ returns (long_of v.type_info v.value))
        × (expect_double v ≡ returns (double_of v.type_info v.value))
        × (expect_z_str v ≡ returns (z_str_of v.type_info v.value))
        × (expect_z_arr v ≡ returns (z_arr_of v.type_info v.value))
        × (expect_z_obj v ≡ returns (z_obj_of v.type_info v.value))
        × (expect_z_res v ≡ returns (z_res_of v.type_info v.value))
        × (expect_z_ref v ≡ returns (z_ref_of v.type_info v.value))
        × (expect_null v ≡ null_of v.type_info)
        × (expect_bool v ≡ bool_of v.type_info)
        × (expect_mut_long v ≡ returns (mut_long_of v.type_info v.value))
        × (expect_mut_double v ≡ returns (mut_double_of v.type_info v.value))
        × (expect_mut_z_str v ≡ returns (z_str_of v.type_info v.value))
        × (expect_mut_z_arr v ≡ returns (z_arr_of v.type_info v.value))
        × (expect_mut_z_obj v ≡ returns (z_obj_of v.type_info v.value))
        × (expect_mut_z_res v ≡ returns (z_res_of v.type_info v.value))
        × (expect_mut_z_ref v ≡ returns (z_ref_of v.type_info v.value))
  expect_by_member v h =
      let same = same_pointers v in
      let z_str_eq = z_str_of_lem v.type_info v.value h in
      let z_arr_eq = z_arr_of_lem v.type_info v.value h in
      let z_obj_eq = z_obj_of_lem v.type_info v.value h in
      let z_res_eq = z_res_of_lem v.type_info v.value h in
      let z_ref_eq = z_ref_of_lem v.type_info v.value h in
      (
        long_of_lem v.type_info v.value h,
        double_of_lem v.type_info v.value h,
        z_str_eq,
        z_arr_eq,
        z_obj_eq,
        z_res_eq,
        z_ref_eq,
        null_of_lem v,
        bool_of_lem v,
        mut_long_of_lem v.type_info v.value h,
        mut_double_of_lem v.type_info v.value h,
        same.0 ∙ z_str_eq,
        same.1 ∙ z_arr_eq,
        same.2 ∙ z_obj_eq,
        same.3 ∙ z_res_eq,
        same.4 ∙ z_ref_eq,
      )
