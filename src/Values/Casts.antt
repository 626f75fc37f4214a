-- ===== src/Values/Casts.antt =====
-- phper/src/values.rs: the `as_*` methods, which forget the error of `expect_*`.
use phper.Base.{ℕ, ℤ, Bool, Option, Outcome, returns, ◌>>=◌, to_option}
use phper.Types.{PhpTypes}
use phper.Values.Union.{ZVal, Place}
use phper.Values.Expect.{
  expect_null, expect_bool, expect_long, expect_mut_long, expect_double, expect_mut_double,
  expect_z_str, expect_mut_z_str, expect_z_arr, expect_mut_z_arr, expect_z_obj, expect_mut_z_obj,
  expect_z_res, expect_mut_z_res, expect_z_ref, expect_mut_z_ref,
}

module _ ⦃php : PhpTypes⦄ where
  unfoldable pub as_null : ZVal → Option (Unit {0})
  unfolding expect_null
  as_null v = to_option (expect_null v)

  unfoldable pub as_bool : ZVal → Option Bool
  unfolding expect_bool
  as_bool v = to_option (expect_bool v)

  unfoldable pub as_long : ZVal → Outcome (Option ℤ)
  unfolding expect_long
  as_long v = do r ← expect_long v; returns (to_option r)

  unfoldable pub as_mut_long : ZVal → Outcome (Option (Place ℤ))
  unfolding expect_mut_long
  as_mut_long v = do r ← expect_mut_long v; returns (to_option r)

  unfoldable pub as_double : ZVal → Outcome (Option ℕ)
  unfolding expect_double
  as_double v = do r ← expect_double v; returns (to_option r)

  unfoldable pub as_mut_double : ZVal → Outcome (Option (Place ℕ))
  unfolding expect_mut_double
  as_mut_double v = do r ← expect_mut_double v; returns (to_option r)

  unfoldable pub as_z_str : ZVal → Outcome (Option ℕ)
  unfolding expect_z_str
  as_z_str v = do r ← expect_z_str v; returns (to_option r)

  unfoldable pub as_mut_z_str : ZVal → Outcome (Option ℕ)
  unfolding expect_mut_z_str
  as_mut_z_str v = do r ← expect_mut_z_str v; returns (to_option r)

  unfoldable pub as_z_arr : ZVal → Outcome (Option ℕ)
  unfolding expect_z_arr
  as_z_arr v = do r ← expect_z_arr v; returns (to_option r)

  unfoldable pub as_mut_z_arr : ZVal → Outcome (Option ℕ)
  unfolding expect_mut_z_arr
  as_mut_z_arr v = do r ← expect_mut_z_arr v; returns (to_option r)

  unfoldable pub as_z_obj : ZVal → Outcome (Option ℕ)
  unfolding expect_z_obj
  as_z_obj v = do r ← expect_z_obj v; returns (to_option r)

  unfoldable pub as_mut_z_obj : ZVal → Outcome (Option ℕ)
  unfolding expect_mut_z_obj
  as_mut_z_obj v = do r ← expect_mut_z_obj v; returns (to_option r)

  unfoldable pub as_z_res : ZVal → Outcome (Option ℕ)
  unfolding expect_z_res
  as_z_res v = do r ← expect_z_res v; returns (to_option r)

  unfoldable pub as_mut_z_res : ZVal → Outcome (Option ℕ)
  unfolding expect_mut_z_res
  as_mut_z_res v = do r ← expect_mut_z_res v; returns (to_option r)

  unfoldable pub as_z_ref : ZVal → Outcome (Option ℕ)
  unfolding expect_z_ref
  as_z_ref v = do r ← expect_z_ref v; returns (to_option r)

  unfoldable pub as_mut_z_ref : ZVal → Outcome (Option ℕ)
  unfolding expect_mut_z_ref
  as_mut_z_ref v = do r ← expect_mut_z_ref v; returns (to_option r)
