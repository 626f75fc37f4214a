-- ===== src/Values/RoundTrip.antt =====
-- The conversions into `ZVal` and out of it (phper/src/values.rs) are inverse to one another.
use phper.Base.{ℕ, ℤ, ◌≡◌, ◌≢◌, refl, Bool, true, false, some, List, returns, ok, arith, ==-self}
use phper.Types.{PhpTypes, is_null}
use phper.Types.Predicates.{predicates_by_tag}
use phper.Values.Union.{ZVal, Payload, Place, long, z_lval}
use phper.Values.Expect.{
  expect_null, expect_bool, expect_long, expect_mut_long, expect_double, expect_z_str, expect_z_arr,
  expect_z_obj,
}
use phper.Values.From.{
  ZvalMacros, StrHeap, from_unit, from_bool, from_i64, from_f64, from_z_string, from_z_array,
  from_z_object, from_bytes,
}
use phper.Values.WellTyped.{IsWellTyped, expect_by_member}

module _ ⦃php : PhpTypes⦄ where
  from_unit-IsWellTyped : IsWellTyped from_unit
  unfolding from_unit
  from_unit-IsWellTyped = omega (arith, php.null_eq)

  from_bool-IsWellTyped : (b : Bool) → IsWellTyped (from_bool b)
  unfolding from_bool
  from_bool-IsWellTyped true = omega (arith, php.true_eq)
  from_bool-IsWellTyped false = omega (arith, php.false_eq)

  from_i64-IsWellTyped : (i : ℤ) → IsWellTyped (from_i64 i)
  unfolding from_i64
  from_i64-IsWellTyped i = omega (arith, php.long_eq)

  from_f64-IsWellTyped : (d : ℕ) → IsWellTyped (from_f64 d)
  unfolding from_f64
  from_f64-IsWellTyped d = omega (arith, php.double_eq)

  expect_bool-from_bool : (b : Bool) → expect_bool (from_bool b) ≡ ok b
  unfolding expect_bool from_bool
  expect_bool-from_bool true =
      ground (arith, (predicates_by_tag (record { t = php.true_tag })).1, php.true_eq)
  expect_bool-from_bool false = ground (
    arith,
    (predicates_by_tag (record { t = php.false_tag })).0,
    (predicates_by_tag (record { t = php.false_tag })).1,
    php.false_eq,
  )

  -- What `From` stores for `()`, `bool`, `i64` and `f64` is what the `expect_*` method of that type
  -- returns.
  pub expect-from :
      (b : Bool) (i : ℤ) (d : ℕ)
      → (expect_null from_unit ≡ ok tt)
        × (expect_bool (from_bool b) ≡ ok b)
        × (expect_long (from_i64 i) ≡ returns (ok i))
        × (expect_double (from_f64 d) ≡ returns (ok d))
  unfolding expect_null from_unit from_i64 from_f64 is_null
  expect-from b i d = (
    rw ==-self refl,
    expect_bool-from_bool b,
    (expect_by_member (from_i64 i) (from_i64-IsWellTyped i)).0,
    (expect_by_member (from_f64 d) (from_f64-IsWellTyped d)).1,
  )

  write_long :
      (t : ℕ) (m : Payload) (x y : ℤ)
      → expect_long (record { type_info = t; value = m }) ≡ returns (ok x)
      → (p : Place ℤ) × (expect_mut_long (record { type_info = t; value = m }) ≡ returns (ok p))
        × (p.content ≡ x)
        × ((p.write y).type_info ≡ t)
        × (expect_long (p.write y) ≡ returns (ok y))
  unfolding expect_mut_long expect_long z_lval
  write_long t (long i) x y h = (
    record { content = i; write = λ z. record { type_info = t; value = long z } },
    ground arith,
    ground arith,
    refl,
    ground arith,
  )
  write_long t m x y h = absurd (ground arith)

  -- Where `expect_long` gives a number, `expect_mut_long` gives a place that holds it; a write
  -- through the place keeps the type word, and `expect_long` then gives the number written.
  pub expect_long-expect_mut_long :
      (v : ZVal) (x y : ℤ)
      → expect_long v ≡ returns (ok x)
      → (p : Place ℤ) × (expect_mut_long v ≡ returns (ok p))
        × (p.content ≡ x)
        × ((p.write y).type_info ≡ v.type_info)
        × (expect_long (p.write y) ≡ returns (ok y))
  expect_long-expect_mut_long v x y h = write_long v.type_info v.value x y h

module _ ⦃php : PhpTypes⦄ ⦃macros : ZvalMacros⦄ where
  -- A string, array or object at a pointer that is not null comes back as that pointer, and a byte
  -- string as the address of a string that holds those bytes.
  pub expect-from_pointers :
      (p : ℕ) (b : List ℕ) (heap : StrHeap)
      → p ≢ 0
      → (expect_z_str (from_z_string p) ≡ returns (ok p))
        × (expect_z_arr (from_z_array p) ≡ returns (ok p))
        × (expect_z_obj (from_z_object p) ≡ returns (ok p))
        × (expect_z_str (from_bytes p b heap).0 ≡ returns (ok p))
        × ((from_bytes p b heap).1 p ≡ some b)
  unfolding from_bytes from_z_string from_z_array from_z_object
  expect-from_pointers p b heap ne = (
    (expect_by_member (from_z_string p) (macros.str_info_tag p, ne)).2,
    (expect_by_member (from_z_array p) (macros.arr_info_tag p, ne)).3,
    (expect_by_member (from_z_object p) (macros.obj_info_tag p, ne)).4,
    (expect_by_member (from_z_string p) (macros.str_info_tag p, ne)).2,
    rw ==-self refl,
  )

  -- What `From` stores for `()`, `bool`, `i64` and `f64` is what the `expect_*` method of that type
  -- returns; a string, array or object at a pointer that is not null comes back as that pointer, and a
  -- byte string as the address of a string that holds those bytes.
  pub expect-from_rust :
      (b : Bool) (i : ℤ) (d p : ℕ) (s : List ℕ) (heap : StrHeap)
      → p ≢ 0
      → (expect_null from_unit ≡ ok tt)
        × (expect_bool (from_bool b) ≡ ok b)
        × (expect_long (from_i64 i) ≡ returns (ok i))
        × (expect_double (from_f64 d) ≡ returns (ok d))
        × (expect_z_str (from_z_string p) ≡ returns (ok p))
        × (expect_z_arr (from_z_array p) ≡ returns (ok p))
        × (expect_z_obj (from_z_object p) ≡ returns (ok p))
        × (expect_z_str (from_bytes p s heap).0 ≡ returns (ok p))
        × ((from_bytes p s heap).1 p ≡ some s)
  expect-from_rust b i d p s heap ne = (
    (expect-from b i d).0,
    (expect-from b i d).1,
    (expect-from b i d).2,
    (expect-from b i d).3,
    (expect-from_pointers p s heap ne).0,
    (expect-from_pointers p s heap ne).1,
    (expect-from_pointers p s heap ne).2,
    (expect-from_pointers p s heap ne).3,
    (expect-from_pointers p s heap ne).4,
  )
