-- ===== src/Constants.antt =====
-- phper/src/constants.rs: `Constant`, and what it asks the engine to register.
use phper.Base.{ℕ, ℤ, List, if◌then◌else◌}
use phper.Types.Scalars.{Scalar}

-- `zend_register_*_constant` (name, value, flags, module number), and `CONST_PERSISTENT | CONST_CS`.
pub record ConstantApi (W : Type 0) : Type 0 where
  pub flags : ℕ
  pub register_null : List ℕ → ℕ → ℕ → W → W
  pub register_bool : List ℕ → ℕ → ℕ → ℕ → W → W
  pub register_long : List ℕ → ℤ → ℕ → ℕ → W → W
  pub register_double : List ℕ → ℕ → ℕ → ℕ → W → W
  pub register_stringl : List ℕ → List ℕ → ℕ → ℕ → W → W

pub record Constant : Type 0 where
  pub name : List ℕ
  pub value : Scalar

unfoldable pub new_constant : List ℕ → Scalar → Constant
new_constant name value = record { name = name; value = value }

module _ {W : Type 0} (api : ConstantApi W) where
  register_scalar : List ℕ → Scalar → ℕ → W → W
  register_scalar name Scalar.null n w = api.register_null name api.flags n w
  register_scalar name (Scalar.bool b) n w =
      api.register_bool name (if b then 1 else 0) api.flags n w
  register_scalar name (Scalar.i64 i) n w = api.register_long name i api.flags n w
  register_scalar name (Scalar.f64 f) n w = api.register_double name f api.flags n w
  register_scalar name (Scalar.string s) n w = api.register_stringl name s api.flags n w
  register_scalar name (Scalar.bytes s) n w = api.register_stringl name s api.flags n w

  unfoldable pub register : Constant → (module_number : ℕ) → W → W
  unfolding register_scalar
  register c module_number w = register_scalar c.name c.value module_number w
