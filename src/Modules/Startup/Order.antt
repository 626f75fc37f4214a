-- ===== src/Modules/Startup/Order.antt =====
-- What `module_startup` (phper/src/modules.rs) has done when it calls the hook of the module.
use phper.Base.{ℕ, ◌≡◌, Option, none, some, List, [], ◌∷◌, Outcome}
use phper.Base.Steps.{Steps}
use phper.Functions.{PhpFlags}
use phper.Classes.{Registry, ClassEntity, InterfaceEntity}
use phper.Classes.Startup.Binding.{
  bound, AllResolve, ParentResolves, IsClassRegistered, IsInterfaceRegistered,
}
use phper.Classes.Property.{declare_properties}
use phper.Ini.{PhpIni, register_ini}
use phper.Modules.{Module, ModuleEntry, Extension, ModuleApi, on_registry, run_hook}
use phper.Modules.Startup.{register_constants}

module _ {H D W : Type 0} where
  -- Each class finds its parent and its interfaces in the statics as they are at its turn.
  abbrev pub ClassesReady : List (ClassEntity H D W) → (ℕ → ℕ) → Type 0
  ClassesReady [] statics = Unit
  ClassesReady (c ∷ rest) statics =
      ParentResolves statics c.parent
      × ((ce : ℕ) → AllResolve (bound c.bind_class ce statics) c.interfaces)
      × ((ce : ℕ) → ClassesReady rest (bound c.bind_class ce statics))

module _ {H W : Type 0} where
  abbrev pub InterfacesReady : List (InterfaceEntity H W) → (ℕ → ℕ) → Type 0
  InterfacesReady [] statics = Unit
  InterfacesReady (i ∷ rest) statics =
      ((ce : ℕ) → AllResolve (bound i.bind_interface ce statics) i.extends_of)
      × ((ce : ℕ) → InterfacesReady rest (bound i.bind_interface ce statics))

-- The statics after the classes were bound in turn to these class entries.
abbrev pub bind_all : List (Option ℕ × ℕ) → (ℕ → ℕ) → ℕ → ℕ
bind_all [] statics = statics
bind_all ((o, ce) ∷ rest) statics = bind_all rest (bound o ce statics)

abbrev pub binds_of : List (Option ℕ × ℕ) → List (Option ℕ)
binds_of [] = []
binds_of ((o, ce) ∷ rest) = o ∷ binds_of rest

module _ {H D W : Type 0} where
  abbrev pub class_binds : List (ClassEntity H D W) → List (Option ℕ)
  class_binds [] = []
  class_binds (c ∷ rest) = c.bind_class ∷ class_binds rest

module _ {H W : Type 0} where
  abbrev pub interface_binds : List (InterfaceEntity H W) → List (Option ℕ)
  interface_binds [] = []
  interface_binds (i ∷ rest) = i.bind_interface ∷ interface_binds rest

-- What the engine is told of a module's classes and interfaces, one after another.
module _ {H D W : Type 0} (api : ModuleApi H D W) ⦃flags : PhpFlags⦄ where
  -- Each class is registered and its properties are declared; `made` has the static of each, if it has
  -- one, with the class entry that its registration gave.
  abbrev pub AllClassesRegistered :
      List (ClassEntity H D W) → (ℕ → ℕ) → W → List (Option ℕ × ℕ) → W → Type 0
  AllClassesRegistered [] statics w [] w' = w' ≡ w
  AllClassesRegistered [] statics w (entry ∷ made) w' = ⊥
  AllClassesRegistered (c ∷ rest) statics w [] w' = ⊥
  AllClassesRegistered (c ∷ rest) statics w ((o, ce) ∷ made) w' =
      (o ≡ c.bind_class)
      × ((w₁ : W) × IsClassRegistered api.classes c statics w ce w₁
          × AllClassesRegistered rest (bound c.bind_class ce statics)
              (declare_properties api.properties c.property_entities ce w₁) made w')

  abbrev pub AllInterfacesRegistered :
      List (InterfaceEntity H W) → (ℕ → ℕ) → W → List (Option ℕ × ℕ) → W → Type 0
  AllInterfacesRegistered [] statics w [] w' = w' ≡ w
  AllInterfacesRegistered [] statics w (entry ∷ made) w' = ⊥
  AllInterfacesRegistered (i ∷ rest) statics w [] w' = ⊥
  AllInterfacesRegistered (i ∷ rest) statics w ((o, ce) ∷ made) w' =
      (o ≡ i.bind_interface)
      × ((w₁ : W) × IsInterfaceRegistered api.classes i statics w ce w₁
          × AllInterfacesRegistered rest (bound i.bind_interface ce statics) w₁ made w')

module _ {H D W : Type 0} where
  abbrev pub loaded : Module H D W → Option (ModuleEntry H D W) → Registry W → Extension H D W
  loaded m e r = record { global_module = some m; global_entry = e; registry = r }

  -- The module's hook runs on these statics and this engine, and the module keeps no hook.
  unfoldable pub hook_on :
      Module H D W → Option (ModuleEntry H D W) → Registry W → Outcome (Unit {0} × Extension H D W)
  unfolding on_registry run_hook
  hook_on m e r =
      on_registry (run_hook m.module_init) (loaded (record m { module_init = none }) e r)

module _ {H D W : Type 0} (api : ModuleApi H D W) ⦃flags : PhpFlags⦄ ⦃ini : PhpIni⦄ where
  -- What the engine has been told when the classes' turn comes: the configuration entries and then the
  -- constants.
  abbrev pub before_classes : ℕ → Module H D W → W → W
  before_classes n m w =
      register_constants api m.constants n
        (register_ini api.register_ini_entries m.ini_entities n w)
