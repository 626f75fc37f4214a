-- ===== src/Classes/Startup.antt =====
-- phper/src/classes.rs: `ClassEntity::init` and `InterfaceEntity::init`, the statics that they bind,
-- and the handlers that register a class or an interface.
pub mod Binding
pub mod Registered
use phper.Base.{
  ℕ, Bool, true, false, Option, none, some, List, [], ◌∷◌, Outcome, returns, ◌==◌, if◌then◌else◌,
}
use phper.Base.Steps.{Steps, ◌>>=◌, ◌>>◌, modify, done, try}
use phper.Functions.{PhpFlags}
use phper.Values.Union.{from_ptr}
use phper.Classes.{
  Registry, ClassSource, ClassEntity, InterfaceEntity, Slot, class_function_entries,
  interface_function_entries,
}
use phper.Classes.Property.{PropertyApi, declare_properties}

-- `zend_register_internal_class`, `_class_ex` (with a parent) and `_interface`, of a name and function
-- entries; `zend_class_implements` (class, interface); the store of `create_object` in a class.
pub record ClassApi (H D W : Type 0) : Type 0 where
  pub register_internal_class : List ℕ → List (Slot H D W) → W → ℕ × W
  pub register_internal_class_ex : List ℕ → List (Slot H D W) → ℕ → W → ℕ × W
  pub register_internal_interface : List ℕ → List (Slot H D W) → W → ℕ × W
  pub class_implements : ℕ → ℕ → W → W
  pub set_create_object : ℕ → W → W

module _ {W : Type 0} where
  -- `StaticStateClass::bind` and `StaticInterface::bind`.
  unfoldable pub bind_static : ℕ → ℕ → Registry W → Registry W
  bind_static s ptr r = record r { statics = λ i. if i == s then ptr else r.statics i }

  -- `as_class_entry` of either: a panic while the static is not bound.
  unfoldable pub as_class_entry : ℕ → ClassSource W
  unfolding from_ptr
  as_class_entry s r = from_ptr (r.statics s)

  unfoldable pub bind_option : Option ℕ → ℕ → Registry W → Registry W
  unfolding bind_static
  bind_option none ptr r = r
  bind_option (some s) ptr r = bind_static s ptr r

  -- The closures are called when the class is registered.
  source : ClassSource W → Steps (Registry W) ℕ
  source f r = try (f r) r

  parent_ptr : Option (ClassSource W) → Steps (Registry W) ℕ
  unfolding source
  parent_ptr none = done 0
  parent_ptr (some parent) = source parent

  in_world : (W → ℕ × W) → Steps (Registry W) ℕ
  in_world f r = let (p, w) = f r.world in returns (p, record r { world = w })

  on_world : (W → W) → Steps (Registry W) (Unit {0})
  on_world f = modify (λ r. record r { world = f r.world })

module _ {H D W : Type 0} (api : ClassApi H D W) where
  implement_all : ℕ → List (ClassSource W) → Steps (Registry W) (Unit {0})
  unfolding source on_world
  implement_all ce [] = done tt
  implement_all ce (interface ∷ rest) = do
    interface_ce ← source interface
    on_world (api.class_implements ce interface_ce)
    implement_all ce rest

  unfoldable pub class_init_handler : List ℕ → List (Slot H D W) → ℕ → Steps (Registry W) ℕ
  unfolding in_world
  class_init_handler name slots parent =
      if parent == 0
      then in_world (api.register_internal_class name slots)
      else in_world (api.register_internal_class_ex name slots parent)

  unfoldable pub interface_init_handler : List ℕ → List (Slot H D W) → Steps (Registry W) ℕ
  unfolding in_world
  interface_init_handler name slots = in_world (api.register_internal_interface name slots)

  unfoldable pub class_init : ⦃flags : PhpFlags⦄ → ClassEntity H D W → Steps (Registry W) ℕ
  unfolding class_function_entries class_init_handler parent_ptr implement_all on_world bind_option
  class_init c = do
    parent ← parent_ptr c.parent
    class_ce ← class_init_handler c.class_name (class_function_entries c) parent
    modify (bind_option c.bind_class class_ce)
    implement_all class_ce c.interfaces
    on_world (api.set_create_object class_ce)
    done class_ce

  unfoldable pub interface_init : ⦃flags : PhpFlags⦄ → InterfaceEntity H W → Steps (Registry W) ℕ
  unfolding interface_function_entries interface_init_handler implement_all bind_option
  interface_init i = do
    class_ce ← interface_init_handler i.interface_name (interface_function_entries {D = D} i)
    modify (bind_option i.bind_interface class_ce)
    implement_all class_ce i.extends_of
    done class_ce
