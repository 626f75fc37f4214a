-- ===== src/Modules.antt =====
-- phper/src/modules.rs: `Module`, its entry, and the functions that the engine calls at the start and
-- the end of the module and of each request.
pub mod Startup
pub mod Tables
pub mod Dispatch
pub mod Methods
mod Examples
use phper.Base.{
  ℕ, Bool, true, false, not, Option, none, some, List, [], ◌∷◌, ◌++◌, Outcome, returns, panics,
  undefined, ◌==◌, if◌then◌else◌, length, bytes, bytes_eq, ensure_end_with_zero,
}
use phper.Base
use phper.Base.Steps.{Steps, ◌>>=◌, ◌>>◌, and_then, modify, done, gets, try}
use phper.Types.Scalars.{Scalar}
use phper.Functions.{PhpFlags, FunctionEntity, from_function_entity, new_function}
use phper.Classes.{Registry, ClassEntity, InterfaceEntity, Slot, method, zeroed}
use phper.Classes.Property.{PropertyApi, declare_properties}
use phper.Classes.Startup.{ClassApi, class_init, interface_init}
use phper.Ini.{PhpIni, Policy, IniEntity, ZendIniEntryDef, new_ini_entity, register_ini}
use phper.Constants.{Constant, ConstantApi, new_constant, register}

-- A hook is a closure of the extension, which may panic.
abbrev pub Hook : Type 0 → Type 0
Hook W = Steps (Registry W) (Unit {0})

pub record Module (H D W : Type 0) : Type 0 where
  pub name : List ℕ
  pub version : List ℕ
  pub author : List ℕ
  pub module_init : Option (Hook W)
  pub module_shutdown : Option (Hook W)
  pub request_init : Option (Hook W)
  pub request_shutdown : Option (Hook W)
  pub function_entities : List (FunctionEntity H)
  pub class_entities : List (ClassEntity H D W)
  pub interface_entities : List (InterfaceEntity H W)
  pub constants : List Constant
  pub ini_entities : List IniEntity
  pub infos : List (List ℕ × List ℕ)

-- A `zend_module_entry`, as far as it differs from module to module; `none` is a null pointer.
pub record ModuleEntry (H D W : Type 0) : Type 0 where
  pub name : List ℕ
  pub version : List ℕ
  pub functions : Option (List (Slot H D W))

-- `GLOBAL_MODULE`, `GLOBAL_MODULE_ENTRY`, the statics and the engine.
pub record Extension (H D W : Type 0) : Type 0 where
  pub global_module : Option (Module H D W)
  pub global_entry : Option (ModuleEntry H D W)
  pub registry : Registry W

-- What the engine offers to a module.
pub record ModuleApi (H D W : Type 0) : Type 0 where
  pub classes : ClassApi H D W
  pub properties : PropertyApi W
  pub constants : ConstantApi W
  pub register_ini_entries : List ZendIniEntryDef → ℕ → W → W
  pub unregister_ini_entries : ℕ → W → W

insert_info : List ℕ → List ℕ → List (List ℕ × List ℕ) → List (List ℕ × List ℕ)
insert_info key value [] = (key, value) ∷ []
insert_info key value ((k, v) ∷ rest) =
    let more = insert_info key value rest in
    if bytes_eq k key then (k, value) ∷ rest else (k, v) ∷ more

module _ {H D W : Type 0} where
  unfoldable pub new_module : (name version author : List ℕ) → Outcome (Module H D W)
  new_module name version author = Base.◌>>=◌ (ensure_end_with_zero name) (λ name.
      Base.◌>>=◌ (ensure_end_with_zero version) (λ version.
        Base.◌>>=◌ (ensure_end_with_zero author) (λ author. returns (record {
          name = name;
          version = version;
          author = author;
          module_init = none;
          module_shutdown = none;
          request_init = none;
          request_shutdown = none;
          function_entities = [];
          class_entities = [];
          interface_entities = [];
          constants = [];
          ini_entities = [];
          infos = [];
        }))))

  unfoldable pub on_module_init : Hook W → Module H D W → Module H D W
  on_module_init func m = record m { module_init = some func }

  unfoldable pub on_module_shutdown : Hook W → Module H D W → Module H D W
  on_module_shutdown func m = record m { module_shutdown = some func }

  unfoldable pub on_request_init : Hook W → Module H D W → Module H D W
  on_request_init func m = record m { request_init = some func }

  unfoldable pub on_request_shutdown : Hook W → Module H D W → Module H D W
  on_request_shutdown func m = record m { request_shutdown = some func }

  unfoldable pub add_function :
      ⦃flags : PhpFlags⦄ → List ℕ → H → Module H D W → Outcome (Module H D W)
  unfolding new_function
  add_function name handler m =
      Base.◌>>=◌ (new_function name handler)
        (λ f. returns (record m { function_entities = m.function_entities ++ (f ∷ []) }))

  unfoldable pub add_class : ClassEntity H D W → Module H D W → Module H D W
  add_class c m = record m { class_entities = m.class_entities ++ (c ∷ []) }

  unfoldable pub add_interface : InterfaceEntity H W → Module H D W → Module H D W
  add_interface i m = record m { interface_entities = m.interface_entities ++ (i ∷ []) }

  unfoldable pub add_constant : List ℕ → Scalar → Module H D W → Module H D W
  unfolding new_constant
  add_constant name value m = record m { constants = m.constants ++ (new_constant name value ∷ []) }

  unfoldable pub add_ini : List ℕ → List ℕ → Policy → Module H D W → Module H D W
  unfolding new_ini_entity
  add_ini name value policy m = record m {
    ini_entities = m.ini_entities ++ (new_ini_entity name value policy ∷ []);
  }

  unfoldable pub add_info : (key value : List ℕ) → Module H D W → Outcome (Module H D W)
  unfolding insert_info
  add_info key value m = Base.◌>>=◌ (ensure_end_with_zero key) (λ key.
      Base.◌>>=◌ (ensure_end_with_zero value)
        (λ value. returns (record m { infos = insert_info key value m.infos })))

  -- The rows that `module_info` prints; a `HashMap` has its items in no particular order. The engine's
  -- own rows of the configuration follow.
  unfoldable pub module_info : Module H D W → List (List ℕ × List ℕ)
  module_info m =
      (if length m.version == 0 then [] else (bytes "version", m.version) ∷ [])
      ++ ((if length m.author == 0 then [] else (bytes "authors", m.author) ∷ []) ++ m.infos)

module _ {H D W : Type 0} ⦃flags : PhpFlags⦄ where
  function_slots : List (FunctionEntity H) → List (Slot H D W)
  unfolding from_function_entity
  function_slots [] = zeroed ∷ []
  function_slots (f ∷ rest) = method (from_function_entity f) ∷ function_slots rest

  unfoldable pub function_entries : Module H D W → Option (List (Slot H D W))
  unfolding function_slots
  function_entries m =
      if length m.function_entities == 0 then none else some (function_slots m.function_entities)

  -- The two asserts, then the entry.
  checked_entry : Module H D W → Outcome (ModuleEntry H D W)
  unfolding function_entries
  checked_entry m =
      if length m.name == 0
      then panics
      else if length m.version == 0
      then panics
      else returns (record { name = m.name; version = m.version; functions = function_entries m })

  entry_or_new :
      Module H D W → Option (ModuleEntry H D W) → Steps (Extension H D W) (ModuleEntry H D W)
  unfolding checked_entry
  entry_or_new m (some e) = done e
  entry_or_new m none = do
    e ← try (checked_entry m)
    modify (λ x. record x { global_module = some m; global_entry = some e })
    done e

  unfoldable pub module_entry : Module H D W → Steps (Extension H D W) (ModuleEntry H D W)
  unfolding entry_or_new
  module_entry m x = entry_or_new m x.global_entry x

module _ {H D W : Type 0} where
  -- `GLOBAL_MODULE.as_mut().unwrap()`.
  the_module : Steps (Extension H D W) (Module H D W)
  the_module x = elim x.global_module [ none ↦ panics | some m ↦ returns (m, x) ]

  set_module : Module H D W → Steps (Extension H D W) (Unit {0})
  set_module m = modify (λ x. record x { global_module = some m })

  on_registry : {A : Type 0} → Steps (Registry W) A → Steps (Extension H D W) A
  on_registry f x = elim (f x.registry) [
    | returns r ↦ returns (r.0, record x { registry = r.1 })
    | panics ↦ panics
    | undefined ↦ undefined
  ]

module _ {W : Type 0} where
  on_world : (W → W) → Steps (Registry W) (Unit {0})
  on_world f = modify (λ r. record r { world = f r.world })

  run_hook : Option (Hook W) → Steps (Registry W) (Unit {0})
  run_hook none = done tt
  run_hook (some f) = f
