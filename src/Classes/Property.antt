-- ===== src/Classes/Property.antt =====
-- phper/src/classes.rs: `PropertyEntity`, and what it asks the engine to declare.
use Prim.Native.Nat.{bit_or}
use phper.Base.{ℕ, ℤ, pos, List, [], ◌∷◌, ◌++◌, if◌then◌else◌}
use phper.Types.Scalars.{Scalar}
use phper.Functions.{PhpFlags, Visibility, raw_visibility}
use phper.Classes.{PropertyEntity, ClassEntity}

-- `zend_declare_property_*` (class, name, value, flags).
pub record PropertyApi (W : Type 0) : Type 0 where
  pub declare_null : ℕ → List ℕ → ℕ → W → W
  pub declare_bool : ℕ → List ℕ → ℤ → ℕ → W → W
  pub declare_long : ℕ → List ℕ → ℤ → ℕ → W → W
  pub declare_double : ℕ → List ℕ → ℕ → ℕ → W → W
  pub declare_stringl : ℕ → List ℕ → List ℕ → ℕ → W → W

module _ ⦃flags : PhpFlags⦄ where
  unfoldable pub new_property : List ℕ → Visibility → Scalar → PropertyEntity
  unfolding raw_visibility
  new_property name visibility value = record {
    name = name;
    visibility = raw_visibility visibility;
    value = value;
  }

  unfoldable pub set_property_static : PropertyEntity → PropertyEntity
  set_property_static p = record p { visibility = bit_or p.visibility flags.acc_static }

  module _ {H D W : Type 0} where
    unfoldable pub add_property :
        List ℕ → Visibility → Scalar → ClassEntity H D W → ClassEntity H D W
    unfolding new_property
    add_property name visibility value c = record c {
      property_entities = c.property_entities ++ (new_property name visibility value ∷ []);
    }

    unfoldable pub add_static_property :
        List ℕ → Visibility → Scalar → ClassEntity H D W → ClassEntity H D W
    unfolding new_property set_property_static
    add_static_property name visibility value c = record c {
      property_entities =
          c.property_entities ++ (set_property_static (new_property name visibility value) ∷ []);
    }

module _ {W : Type 0} (api : PropertyApi W) where
  declare_scalar : ℕ → List ℕ → ℕ → Scalar → W → W
  declare_scalar ce name access Scalar.null w = api.declare_null ce name access w
  declare_scalar ce name access (Scalar.bool b) w =
      api.declare_bool ce name (if b then pos 1 else pos 0) access w
  declare_scalar ce name access (Scalar.i64 i) w = api.declare_long ce name i access w
  declare_scalar ce name access (Scalar.f64 f) w = api.declare_double ce name f access w
  declare_scalar ce name access (Scalar.string s) w = api.declare_stringl ce name s access w
  declare_scalar ce name access (Scalar.bytes b) w = api.declare_stringl ce name b access w

  unfoldable pub declare : PropertyEntity → ℕ → W → W
  unfolding declare_scalar
  declare p ce w = declare_scalar ce p.name p.visibility p.value w

  unfoldable pub declare_properties : List PropertyEntity → ℕ → W → W
  unfolding declare
  declare_properties [] ce w = w
  declare_properties (p ∷ rest) ce w = declare_properties rest ce (declare p ce w)
