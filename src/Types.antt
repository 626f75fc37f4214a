-- ===== src/Types.antt =====
-- phper/src/types.rs: `TypeInfo`, the type word of a PHP value.
-- The tags, the flag shift and `zend_get_type_by_const` are PHP's and come as a parameter.
pub mod Predicates
pub mod Scalars
mod Examples
use Prim.Native.Nat.{bit_and}
use phper.Base.{
  ℕ, ◌-◌, ◌*◌, ◌%◌, ◌^◌, ◌<◌, ◌≡◌, Bool, ◌||◌, List, ◌==◌, if◌then◌else◌, bytes_eq, bytes, is_utf8,
}

-- PHP's headers: the type tags as documented, `_IS_BOOL` at the version's own value.
pub record PhpTypes : Type 0 where
  pub undef_tag : ℕ
  pub null_tag : ℕ
  pub false_tag : ℕ
  pub true_tag : ℕ
  pub long_tag : ℕ
  pub double_tag : ℕ
  pub string_tag : ℕ
  pub array_tag : ℕ
  pub object_tag : ℕ
  pub resource_tag : ℕ
  pub reference_tag : ℕ
  pub bool_tag : ℕ
  pub flags_shift : ℕ
  pub undef_eq : undef_tag ≡ 0
  pub null_eq : null_tag ≡ 1
  pub false_eq : false_tag ≡ 2
  pub true_eq : true_tag ≡ 3
  pub long_eq : long_tag ≡ 4
  pub double_eq : double_tag ≡ 5
  pub string_eq : string_tag ≡ 6
  pub array_eq : array_tag ≡ 7
  pub object_eq : object_tag ≡ 8
  pub resource_eq : resource_tag ≡ 9
  pub reference_eq : reference_tag ≡ 10
  pub bool_gt : 10 < bool_tag
  pub bool_lt : bool_tag < 256
  pub shift_eq : flags_shift ≡ 8

pub record TypeInfo : Type 0 where
  pub t : ℕ

unfoldable pub from_raw : ℕ → TypeInfo
from_raw t = record { t = t }

unfoldable pub into_raw : TypeInfo → ℕ
into_raw i = i.t

-- `!x` and `x << k` on `u32`.
abbrev not_u32 : ℕ → ℕ
not_u32 x = 2 ^ 32 - 1 - x

abbrev shl_u32 : ℕ → ℕ → ℕ
shl_u32 x k = x * 2 ^ k % 2 ^ 32

module _ ⦃php : PhpTypes⦄ where
  unfoldable pub get_base_type_by_raw : ℕ → ℕ
  get_base_type_by_raw t = bit_and t (not_u32 (shl_u32 (not_u32 0) php.flags_shift))

  abbrev pub array : TypeInfo
  array = record { t = php.array_tag }

  abbrev pub bool : TypeInfo
  bool = record { t = php.bool_tag }

  abbrev pub double : TypeInfo
  double = record { t = php.double_tag }

  abbrev pub long : TypeInfo
  long = record { t = php.long_tag }

  abbrev pub null : TypeInfo
  null = record { t = php.null_tag }

  abbrev pub object : TypeInfo
  object = record { t = php.object_tag }

  abbrev pub reference : TypeInfo
  reference = record { t = php.reference_tag }

  abbrev pub resource : TypeInfo
  resource = record { t = php.resource_tag }

  abbrev pub string : TypeInfo
  string = record { t = php.string_tag }

  abbrev pub undef : TypeInfo
  undef = record { t = php.undef_tag }

  unfoldable pub is_undef : TypeInfo → Bool
  is_undef i = i.t == php.undef_tag

  unfoldable pub is_null : TypeInfo → Bool
  is_null i = i.t == php.null_tag

  unfoldable pub is_true : TypeInfo → Bool
  is_true i = get_base_type_by_raw i.t == php.true_tag

  unfoldable pub is_false : TypeInfo → Bool
  is_false i = get_base_type_by_raw i.t == php.false_tag

  unfoldable pub is_bool : TypeInfo → Bool
  unfolding is_true is_false
  is_bool i = is_true i || is_false i

  unfoldable pub is_long : TypeInfo → Bool
  is_long i = get_base_type_by_raw i.t == php.long_tag

  unfoldable pub is_double : TypeInfo → Bool
  is_double i = get_base_type_by_raw i.t == php.double_tag

  unfoldable pub is_string : TypeInfo → Bool
  is_string i = get_base_type_by_raw i.t == php.string_tag

  unfoldable pub is_array : TypeInfo → Bool
  is_array i = get_base_type_by_raw i.t == php.array_tag

  unfoldable pub is_object : TypeInfo → Bool
  is_object i = get_base_type_by_raw i.t == php.object_tag

  unfoldable pub is_resource : TypeInfo → Bool
  is_resource i = get_base_type_by_raw i.t == php.resource_tag

  unfoldable pub is_reference : TypeInfo → Bool
  is_reference i = get_base_type_by_raw i.t == php.reference_tag

  unfoldable pub get_base_type : TypeInfo → TypeInfo
  unfolding from_raw
  get_base_type i = from_raw (get_base_type_by_raw i.t)

  -- `type_by_const` is `zend_get_type_by_const`.
  unfoldable pub get_base_type_name : (type_by_const : ℕ → List ℕ) → TypeInfo → List ℕ
  get_base_type_name type_by_const i =
      let t = get_base_type_by_raw i.t in
      let bs = type_by_const t in
      if t == php.undef_tag
      then bytes "undef"
      else if t == php.reference_tag
      then bytes "reference"
      else if bytes_eq bs (bytes "boolean")
      then bytes "bool"
      else if bytes_eq bs (bytes "integer")
      then bytes "int"
      else bs

-- `From<u32>`.
unfoldable pub from_u32 : ℕ → TypeInfo
unfolding from_raw
from_u32 n = from_raw n

-- `Debug for TypeInfo`, and `Display`, which falls back where the name is not UTF-8.
pub record DebugTypeInfo : Type 0 where
  pub base_name : List ℕ
  pub base : ℕ
  pub raw : ℕ

module _ ⦃php : PhpTypes⦄ (type_by_const : ℕ → List ℕ) where
  unfoldable pub debug_type_info : TypeInfo → DebugTypeInfo
  unfolding get_base_type get_base_type_name
  debug_type_info i = record {
    base_name = get_base_type_name type_by_const i;
    base = (get_base_type i).t;
    raw = i.t;
  }

  unfoldable pub display_type_info : TypeInfo → List ℕ
  unfolding get_base_type_name is_utf8
  display_type_info i =
      let name = get_base_type_name type_by_const i in
      if is_utf8 name then name else bytes "unknown"
