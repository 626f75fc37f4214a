-- ===== src/Types/Examples.antt =====
-- The type word of `true`, in phper/src/types.rs.
use phper.Base.{◌≡◌, ◌≢◌, refl, true}
use phper.Types.{get_base_type, get_base_type_by_raw, is_bool, bool}
use phper.Types.Predicates.{is_bool-ne-bool}
use phper.Samples.{php8}

true-is_bool : is_bool ⦃php = php8⦄ (record { t = 3 }) ≡ true
unfolding is_bool get_base_type_by_raw
true-is_bool = refl

is_bool-ne-bool_example : get_base_type ⦃php = php8⦄ (record { t = 3 }) ≢ bool ⦃php = php8⦄
is_bool-ne-bool_example = is_bool-ne-bool ⦃php = php8⦄ (record { t = 3 }) true-is_bool
