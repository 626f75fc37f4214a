-- ===== src/Classes.antt =====
-- phper/src/classes.rs: the builders `ClassEntity` and `InterfaceEntity`, and the function entries
-- that they register, which hide the state's constructor and cloner behind the terminating entry.
-- `H` is the type of handlers, `D` of boxed states (`dyn Any`), `W` of what the engine keeps.
pub mod Property
pub mod Startup
pub mod Walk
pub mod Create
pub mod Lookup
mod Examples
use Prim.Native.Nat.{bit_or}
use phper.Base.{
  ℕ, Bool, true, false, Option, none, some, List, [], ◌∷◌, ◌++◌, map, Outcome, returns, ◌>>=◌,
  ensure_end_with_zero,
}
use phper.Types.Scalars.{Scalar}
use phper.Functions.{
  PhpFlags, Visibility, public, raw_visibility, ZendFunctionEntry, MethodEntity, new_method,
  from_method_entity, set_vis_static, set_vis_abstract,
}

-- The state's constructor and cloner are closures of the extension, which may panic.
abbrev pub StateConstructor : Type 0 → Type 0 → Type 0
StateConstructor D W = W → Outcome (D × W)

abbrev pub StateCloner : Type 0 → Type 0 → Type 0
StateCloner D W = D → W → Outcome (D × W)

-- The pointers of the `StaticStateClass`es and `StaticInterface`s, by number, and the engine.
pub record Registry (W : Type 0) : Type 0 where
  pub statics : ℕ → ℕ
  pub world : W

-- A closure that returns a class entry when the class is registered.
abbrev pub ClassSource : Type 0 → Type 0
ClassSource W = Registry W → Outcome ℕ

pub record PropertyEntity : Type 0 where
  pub name : List ℕ
  pub visibility : ℕ
  pub value : Scalar

pub record ClassEntity (H D W : Type 0) : Type 0 where
  pub class_name : List ℕ
  pub state_constructor : StateConstructor D W
  pub method_entities : List (MethodEntity H)
  pub property_entities : List PropertyEntity
  pub parent : Option (ClassSource W)
  pub interfaces : List (ClassSource W)
  pub bind_class : Option ℕ
  pub state_cloner : Option (StateCloner D W)

pub record InterfaceEntity (H W : Type 0) : Type 0 where
  pub interface_name : List ℕ
  pub method_entities : List (MethodEntity H)
  pub extends_of : List (ClassSource W)
  pub bind_interface : Option ℕ

-- A `zend_function_entry` of the registered array: of a method, zeroed, or one whose first bytes are
-- the pointer to the state's constructor or cloner, if there is a cloner.
pub data Slot (H D W : Type 0) : Type 0 where
  method : ZendFunctionEntry H → Slot H D W
  zeroed : Slot H D W
  constructor_slot : StateConstructor D W → Slot H D W
  cloner_slot : Option (StateCloner D W) → Slot H D W

module _ {H D W : Type 0} ⦃flags : PhpFlags⦄ where
  unfoldable pub new_with_state_constructor :
      List ℕ → StateConstructor D W → Outcome (ClassEntity H D W)
  new_with_state_constructor class_name state_constructor = do
    class_name ← ensure_end_with_zero class_name
    returns (record {
      class_name = class_name;
      state_constructor = state_constructor;
      method_entities = [];
      property_entities = [];
      parent = none;
      interfaces = [];
      bind_class = none;
      state_cloner = none;
    })

  -- What `add_method`, `add_static_method` and `add_abstract_method` push.
  push_method : ClassEntity H D W → MethodEntity H → ClassEntity H D W
  push_method c m = record c { method_entities = c.method_entities ++ (m ∷ []) }

  unfoldable pub add_method :
      List ℕ → Visibility → H → ClassEntity H D W → Outcome (ClassEntity H D W)
  unfolding new_method push_method
  add_method name vis handler c = do
    m ← new_method name (some handler) vis
    returns (push_method c m)

  unfoldable pub add_static_method :
      List ℕ → Visibility → H → ClassEntity H D W → Outcome (ClassEntity H D W)
  unfolding new_method set_vis_static push_method
  add_static_method name vis handler c = do
    m ← new_method name (some handler) vis
    returns (push_method c (set_vis_static m))

  unfoldable pub add_abstract_method :
      List ℕ → Visibility → ClassEntity H D W → Outcome (ClassEntity H D W)
  unfolding new_method set_vis_abstract push_method
  add_abstract_method name vis c = do
    m ← new_method name none vis
    returns (push_method c (set_vis_abstract m))

  unfoldable pub extends : ClassSource W → ClassEntity H D W → ClassEntity H D W
  extends parent c = record c { parent = some parent }

  unfoldable pub implements : ClassSource W → ClassEntity H D W → ClassEntity H D W
  implements interface c = record c { interfaces = c.interfaces ++ (interface ∷ []) }

  unfoldable pub bind : ℕ → ClassEntity H D W → ClassEntity H D W
  bind cls c = record c { bind_class = some cls }

  unfoldable pub state_cloner : StateCloner D W → ClassEntity H D W → ClassEntity H D W
  state_cloner clone_fn c = record c { state_cloner = some clone_fn }

  unfoldable pub method_slots : List (MethodEntity H) → List (Slot H D W)
  unfolding from_method_entity
  method_slots [] = []
  method_slots (m ∷ rest) = method (from_method_entity m) ∷ method_slots rest

  unfoldable pub class_function_entries : ClassEntity H D W → List (Slot H D W)
  unfolding method_slots
  class_function_entries c =
      method_slots c.method_entities
      ++ (zeroed ∷ constructor_slot c.state_constructor ∷ cloner_slot c.state_cloner ∷ [])

module _ {H W : Type 0} where
  unfoldable pub new_interface : List ℕ → Outcome (InterfaceEntity H W)
  new_interface interface_name = do
    interface_name ← ensure_end_with_zero interface_name
    returns (record {
      interface_name = interface_name;
      method_entities = [];
      extends_of = [];
      bind_interface = none;
    })

  -- `InterfaceEntity::add_method`: public and abstract.
  unfoldable pub add_interface_method :
      ⦃flags : PhpFlags⦄ → List ℕ → InterfaceEntity H W → Outcome (InterfaceEntity H W)
  unfolding new_method set_vis_abstract
  add_interface_method name i = do
    m ← new_method name none public
    returns (record i { method_entities = i.method_entities ++ (set_vis_abstract m ∷ []) })

  unfoldable pub extends_interface : ClassSource W → InterfaceEntity H W → InterfaceEntity H W
  extends_interface interface i = record i { extends_of = i.extends_of ++ (interface ∷ []) }

  unfoldable pub bind_interface : ℕ → InterfaceEntity H W → InterfaceEntity H W
  bind_interface s i = record i { bind_interface = some s }

module _ {H D W : Type 0} ⦃flags : PhpFlags⦄ where
  unfoldable pub interface_function_entries : InterfaceEntity H W → List (Slot H D W)
  unfolding method_slots
  interface_function_entries i = method_slots i.method_entities ++ (zeroed ∷ [])
