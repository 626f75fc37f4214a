-- ===== src/Types/Predicates.antt =====
-- The predicates of `TypeInfo` (phper/src/types.rs) look at the low byte of the type word.
use phper.Base.{ℕ, ◌%◌, ◌≡◌, ◌≢◌, refl, ap, true, arith, ◌==◌}
use phper.Base.Bits.{bit_and-byte}
use phper.Types.{
  PhpTypes, TypeInfo, get_base_type_by_raw, get_base_type, is_true, is_false, is_bool, is_long,
  is_double, is_string, is_array, is_object, is_resource, is_reference, bool, into_raw,
}

module _ ⦃php : PhpTypes⦄ where
  pub get_base_type_by_raw-mod : (t : ℕ) → get_base_type_by_raw t ≡ t % 256
  unfolding get_base_type_by_raw
  get_base_type_by_raw-mod t = rw php.shift_eq (bit_and-byte t)

  -- Each predicate says that the low byte of the type word is its tag.
  pub predicates_by_tag :
      (i : TypeInfo)
      → (is_false i ≡ (i.t % 256 == 2))
        × (is_true i ≡ (i.t % 256 == 3))
        × (is_long i ≡ (i.t % 256 == 4))
        × (is_double i ≡ (i.t % 256 == 5))
        × (is_string i ≡ (i.t % 256 == 6))
        × (is_array i ≡ (i.t % 256 == 7))
        × (is_object i ≡ (i.t % 256 == 8))
        × (is_resource i ≡ (i.t % 256 == 9))
        × (is_reference i ≡ (i.t % 256 == 10))
  unfolding is_false is_true is_long is_double is_string is_array is_object is_resource is_reference
  predicates_by_tag i = rw get_base_type_by_raw-mod (
      rw
        (
          php.false_eq, php.true_eq, php.long_eq, php.double_eq, php.string_eq, php.array_eq,
          php.object_eq, php.resource_eq, php.reference_eq,
        )
        (refl, refl, refl, refl, refl, refl, refl, refl, refl))

  -- `TypeInfo::BOOL` is the base type of no word that `is_bool` accepts.
  pub is_bool-ne-bool : (i : TypeInfo) → is_bool i ≡ true → get_base_type i ≢ bool
  unfolding is_bool get_base_type into_raw
  is_bool-ne-bool i h e =
      ground
        (arith, get_base_type_by_raw-mod i.t, ap into_raw e, php.false_eq, php.true_eq, php.bool_gt)
