-- ===== src/Values/From.antt =====
-- phper/src/values.rs: the `From` conversions into `ZVal`. The `ZVAL_*` macros behind the functions
-- of phper-sys/php_wrapper.c write the type word and the union; the words of the counted types,
-- which carry flags, are PHP's and come as a parameter.
use phper.Base.{ℕ, ℤ, ◌%◌, ◌≡◌, Bool, Option, none, some, List, ◌==◌, if◌then◌else◌}
use phper.Types.{PhpTypes}
use phper.Values.Union.{ZVal, unset, long, double, str, arr, obj}

pub record ZvalMacros : Type 0 where
  pub str_info : ℕ → ℕ
  pub arr_info : ℕ → ℕ
  pub obj_info : ℕ → ℕ
  pub str_info_tag : (p : ℕ) → str_info p % 256 ≡ 6
  pub arr_info_tag : (p : ℕ) → arr_info p % 256 ≡ 7
  pub obj_info_tag : (p : ℕ) → obj_info p % 256 ≡ 8

-- The strings of the engine by address.
abbrev pub StrHeap : Type 0
StrHeap = ℕ → Option (List ℕ)

module _ ⦃php : PhpTypes⦄ where
  unfoldable pub from_unit : ZVal
  from_unit = record { type_info = php.null_tag; value = unset }

  unfoldable pub from_bool : Bool → ZVal
  from_bool b =
      if b
      then record { type_info = php.true_tag; value = unset }
      else record { type_info = php.false_tag; value = unset }

  unfoldable pub from_i64 : ℤ → ZVal
  from_i64 i = record { type_info = php.long_tag; value = long i }

  unfoldable pub from_f64 : ℕ → ZVal
  from_f64 f = record { type_info = php.double_tag; value = double f }

  -- `impl Default for ZVal`.
  unfoldable pub default : ZVal
  unfolding from_unit
  default = from_unit

  -- `From<Option<T>>`.
  unfoldable pub from_option {ℓ} : {T : Type ℓ} → (T → ZVal) → Option T → ZVal
  unfolding from_unit
  from_option into none = from_unit
  from_option into (some t) = into t

module _ ⦃macros : ZvalMacros⦄ where
  -- `From<ZString>`, of the raw pointer.
  unfoldable pub from_z_string : ℕ → ZVal
  from_z_string p = record { type_info = macros.str_info p; value = str p }

  unfoldable pub from_z_array : ℕ → ZVal
  from_z_array p = record { type_info = macros.arr_info p; value = arr p }

  unfoldable pub from_z_object : ℕ → ZVal
  from_z_object p = record { type_info = macros.obj_info p; value = obj p }

  -- `From<&[u8]>`: `ZVAL_STRINGL` copies the bytes into a new string at `fresh`.
  unfoldable pub from_bytes : (fresh : ℕ) → List ℕ → StrHeap → ZVal × StrHeap
  unfolding from_z_string
  from_bytes fresh b heap = (from_z_string fresh, λ p. if p == fresh then some b else heap p)

  -- `From<&str>`, `From<String>`, `From<&CStr>` and `From<Vec<u8>>` hand their bytes on.
  unfoldable pub from_str : (fresh : ℕ) → List ℕ → StrHeap → ZVal × StrHeap
  unfolding from_bytes
  from_str fresh s = from_bytes fresh s

  unfoldable pub from_vec : (fresh : ℕ) → List ℕ → StrHeap → ZVal × StrHeap
  unfolding from_bytes
  from_vec fresh b = from_bytes fresh b

  -- `From<&CStr>` and `From<String>`.
  unfoldable pub from_c_str : (fresh : ℕ) → List ℕ → StrHeap → ZVal × StrHeap
  unfolding from_bytes
  from_c_str fresh s = from_bytes fresh s

  unfoldable pub from_string : (fresh : ℕ) → List ℕ → StrHeap → ZVal × StrHeap
  unfolding from_bytes
  from_string fresh s = from_bytes fresh s
