-- ===== src/Modules/Startup.antt =====
-- phper/src/modules.rs: `module_startup`, `module_shutdown`, `request_startup` and `request_shutdown`.
pub mod Order
use phper.Base.{ℕ, Option, none, some, List, [], ◌∷◌, Outcome, returns, panics}
use phper.Base.Steps.{Steps, ◌>>=◌, ◌>>◌, modify, done, gets}
use phper.Functions.{PhpFlags}
use phper.Classes.{Registry, ClassEntity, InterfaceEntity}
use phper.Classes.Property.{declare_properties}
use phper.Classes.Startup.{class_init, interface_init}
use phper.Ini.{PhpIni, register_ini}
use phper.Constants.{Constant, register}
use phper.Modules.{
  Module, Extension, ModuleApi, the_module, set_module, on_registry, on_world, run_hook,
}

module _ {H D W : Type 0} (api : ModuleApi H D W) ⦃flags : PhpFlags⦄ where
  unfoldable pub register_constants : List Constant → ℕ → W → W
  unfolding register
  register_constants [] n w = w
  register_constants (c ∷ rest) n w = register_constants rest n (register api.constants c n w)

  init_classes : List (ClassEntity H D W) → Steps (Registry W) (Unit {0})
  unfolding class_init declare_properties on_world
  init_classes [] = done tt
  init_classes (c ∷ rest) = do
    ce ← class_init api.classes c
    on_world (declare_properties api.properties c.property_entities ce)
    init_classes rest

  init_interfaces : List (InterfaceEntity H W) → Steps (Registry W) (Unit {0})
  unfolding interface_init
  init_interfaces [] = done tt
  init_interfaces (i ∷ rest) = do interface_init api.classes i; init_interfaces rest

  -- `take(&mut module.module_init)` leaves no hook behind.
  unfoldable pub module_startup : ⦃ini : PhpIni⦄ → ℕ → Steps (Extension H D W) (Unit {0})
  unfolding register_ini register_constants init_classes init_interfaces the_module set_module
      on_registry on_world run_hook
  module_startup module_number = do
    m ← the_module
    on_registry (on_world (register_ini api.register_ini_entries m.ini_entities module_number))
    on_registry (on_world (register_constants m.constants module_number))
    on_registry (init_classes m.class_entities)
    on_registry (init_interfaces m.interface_entities)
    set_module (record m { module_init = none })
    on_registry (run_hook m.module_init)

  unfoldable pub module_shutdown : ℕ → Steps (Extension H D W) (Unit {0})
  unfolding the_module set_module on_registry on_world run_hook
  module_shutdown module_number = do
    m ← the_module
    on_registry (on_world (api.unregister_ini_entries module_number))
    set_module (record m { module_shutdown = none })
    on_registry (run_hook m.module_shutdown)

module _ {H D W : Type 0} where
  unfoldable pub request_startup : Steps (Extension H D W) (Unit {0})
  unfolding the_module on_registry run_hook
  request_startup = do m ← the_module; on_registry (run_hook m.request_init)

  unfoldable pub request_shutdown : Steps (Extension H D W) (Unit {0})
  unfolding the_module on_registry run_hook
  request_shutdown = do m ← the_module; on_registry (run_hook m.request_shutdown)
