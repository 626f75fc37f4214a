-- ===== src/Values/Examples.antt =====
-- An integer, an object and a string through the conversions of phper/src/values.rs.
use phper.Base.{ℕ, pos, ◌≡◌, refl, true, some, none, returns, ok, err, arith, bytes}
use phper.Types.{is_long, get_base_type_by_raw}
use phper.Errors.{Error, expect_type}
use phper.Values.Union.{ZVal, long, obj, z_lval}
use phper.Values.Expect.{
  expect_null, expect_bool, expect_long, expect_double, expect_z_str, expect_z_arr, expect_z_obj,
  expect_z_res, expect_z_ref, expect_mut_long, expect_mut_double, expect_mut_z_str,
  expect_mut_z_arr, expect_mut_z_obj, expect_mut_z_res, expect_mut_z_ref,
}
use phper.Values.From.{
  from_unit, from_bool, from_i64, from_f64, from_z_string, from_z_array, from_z_object, from_bytes,
}
use phper.Values.WellTyped.{expect_by_member}
use phper.Values.RoundTrip.{expect-from_rust}
use phper.Samples.{php8, macros8}

abbrev an_object : ZVal
an_object = record { type_info = 776; value = obj 50 }

abbrev five : ZVal
five = record { type_info = 4; value = long (pos 5) }

abbrev wrong : ℕ → Error
wrong t = expect_type (record { expect_type = record { t = t }; actual_type = record { t = 776 } })

expect_by_member_example :
    (expect_long ⦃php = php8⦄ an_object ≡ returns (err (wrong 4)))
    × (expect_double ⦃php = php8⦄ an_object ≡ returns (err (wrong 5)))
    × (expect_z_str ⦃php = php8⦄ an_object ≡ returns (err (wrong 6)))
    × (expect_z_arr ⦃php = php8⦄ an_object ≡ returns (err (wrong 7)))
    × (expect_z_obj ⦃php = php8⦄ an_object ≡ returns (ok 50))
    × (expect_z_res ⦃php = php8⦄ an_object ≡ returns (err (wrong 9)))
    × (expect_z_ref ⦃php = php8⦄ an_object ≡ returns (err (wrong 10)))
    × (expect_null ⦃php = php8⦄ an_object ≡ err (wrong 1))
    × (expect_bool ⦃php = php8⦄ an_object ≡ err (wrong 17))
    × (expect_mut_long ⦃php = php8⦄ an_object ≡ returns (err (wrong 4)))
    × (expect_mut_double ⦃php = php8⦄ an_object ≡ returns (err (wrong 5)))
    × (expect_mut_z_str ⦃php = php8⦄ an_object ≡ returns (err (wrong 6)))
    × (expect_mut_z_arr ⦃php = php8⦄ an_object ≡ returns (err (wrong 7)))
    × (expect_mut_z_obj ⦃php = php8⦄ an_object ≡ returns (ok 50))
    × (expect_mut_z_res ⦃php = php8⦄ an_object ≡ returns (err (wrong 9)))
    × (expect_mut_z_ref ⦃php = php8⦄ an_object ≡ returns (err (wrong 10)))
expect_by_member_example = expect_by_member ⦃php = php8⦄ an_object (refl, omega arith)

expect-from_rust_example :
    (expect_null ⦃php = php8⦄ (from_unit ⦃php = php8⦄) ≡ ok tt)
    × (expect_bool ⦃php = php8⦄ (from_bool ⦃php = php8⦄ true) ≡ ok true)
    × (expect_long ⦃php = php8⦄ (from_i64 ⦃php = php8⦄ (pos 5)) ≡ returns (ok (pos 5)))
    × (expect_double ⦃php = php8⦄ (from_f64 ⦃php = php8⦄ 9) ≡ returns (ok 9))
    × (expect_z_str ⦃php = php8⦄ (from_z_string ⦃macros = macros8⦄ 50) ≡ returns (ok 50))
    × (expect_z_arr ⦃php = php8⦄ (from_z_array ⦃macros = macros8⦄ 50) ≡ returns (ok 50))
    × (expect_z_obj ⦃php = php8⦄ (from_z_object ⦃macros = macros8⦄ 50) ≡ returns (ok 50))
    × (expect_z_str ⦃php = php8⦄ (from_bytes ⦃macros = macros8⦄ 50 (bytes "foo") (λ p. none)).0
        ≡ returns (ok 50))
    × ((from_bytes ⦃macros = macros8⦄ 50 (bytes "foo") (λ p. none)).1 50 ≡ some (bytes "foo"))
expect-from_rust_example =
    expect-from_rust ⦃php = php8⦄ ⦃macros = macros8⦄ true (pos 5) 9 50 (bytes "foo") (λ p. none)
      (omega arith)

five_is_long : expect_long ⦃php = php8⦄ five ≡ returns (ok (pos 5))
unfolding expect_long is_long get_base_type_by_raw z_lval
five_is_long = refl
