-- ===== src/Modules/Tables.antt =====
-- The tables of functions that phper/src/modules.rs and phper/src/classes.rs register, as the engine
-- reads them: entry by entry, up to the first whose name is null.
use phper.Base.{
  ◌≡◌, ◌≢◌, refl, false, Option, none, some, List, [], ◌∷◌, ◌++◌, map, returns, arith, length, ◌==◌,
  if◌then◌else◌,
}
use phper.Functions.{
  PhpFlags, ZendFunctionEntry, FunctionEntity, MethodEntity, from_function_entity,
  from_method_entity,
}
use phper.Classes.{
  ClassEntity, InterfaceEntity, Slot, method, zeroed, constructor_slot, cloner_slot, method_slots,
  class_function_entries, interface_function_entries,
}
use phper.Modules.{
  Module, ModuleEntry, Extension, function_entries, function_slots, module_entry, entry_or_new,
  checked_entry,
}

module _ {H D W : Type 0} where
  -- `none` where the engine would take the bytes of a hidden pointer for an entry.
  abbrev pub visible : List (Slot H D W) → Option (List (ZendFunctionEntry H))
  visible [] = none
  visible (method e ∷ rest) = elim (visible rest) [ none ↦ none | some l ↦ some (e ∷ l) ]
  visible (zeroed ∷ rest) = some []
  visible (constructor_slot c ∷ rest) = none
  visible (cloner_slot c ∷ rest) = none

  abbrev pub visible_table : Option (List (Slot H D W)) → Option (List (ZendFunctionEntry H))
  visible_table none = some []
  visible_table (some l) = visible l

module _ (H D W : Type 0) ⦃flags : PhpFlags⦄ where
  visible-function_slots :
      (l : List (FunctionEntity H))
      → visible (function_slots {H = H} {D = D} {W = W} l) ≡ some (map from_function_entity l)
  unfolding function_slots
  visible-function_slots [] = refl
  visible-function_slots (f ∷ rest) = rw (visible-function_slots rest) refl

  visible-method_slots :
      (l : List (MethodEntity H)) (more : List (Slot H D W))
      → visible (method_slots l ++ (zeroed ∷ more)) ≡ some (map from_method_entity l)
  unfolding method_slots
  visible-method_slots [] more = refl
  visible-method_slots (m ∷ rest) more = rw (visible-method_slots rest more) refl

  table_lem :
      (l : List (FunctionEntity H))
      → visible_table (if length l == 0 then none else some (function_slots {D = D} {W = W} l))
        ≡ some (map from_function_entity l)
  table_lem [] = refl
  table_lem (f ∷ rest) =
      let full : (length (f ∷ rest) == 0) ≡ false = ground arith in
      rw full (visible-function_slots (f ∷ rest))

module _ {H D W : Type 0} ⦃flags : PhpFlags⦄ where
  -- The engine sees the methods of a class, and those of an interface, in order, and nothing of what is
  -- hidden behind them.
  pub visible-methods :
      (c : ClassEntity H D W) (i : InterfaceEntity H W)
      → (visible (class_function_entries c) ≡ some (map from_method_entity c.method_entities))
        × (visible (interface_function_entries {D = D} i)
            ≡ some (map from_method_entity i.method_entities))
  unfolding class_function_entries interface_function_entries
  visible-methods c i = (
    visible-method_slots H D W c.method_entities _,
    visible-method_slots H D W i.method_entities _,
  )

  pub visible_table-function_entries :
      (m : Module H D W)
      → visible_table (function_entries m) ≡ some (map from_function_entity m.function_entities)
  unfolding function_entries
  visible_table-function_entries m = table_lem H D W m.function_entities

  -- Before there is an entry, a module with a name and a version becomes the extension's module, and
  -- the engine sees in its entry the module's functions, in order, and no others. The entry is made
  -- once: a later call, with any module, returns it and changes nothing.
  pub module_entry-module_entry :
      (m m' : Module H D W) (x : Extension H D W)
      → x.global_entry ≡ none
      → length m.name ≢ 0
      → length m.version ≢ 0
      → (e : ModuleEntry H D W) × (x' : Extension H D W) × (module_entry m x ≡ returns (e, x'))
        × (x'.global_module ≡ some m)
        × (visible_table e.functions ≡ some (map from_function_entity m.function_entities))
        × (module_entry m' x' ≡ returns (e, x'))
  unfolding module_entry entry_or_new checked_entry function_entries
  module_entry-module_entry m m' x fresh named versioned =
      let named' : (length m.name == 0) ≡ false = ground arith in
      let versioned' : (length m.version == 0) ≡ false = ground arith in
      let e : ModuleEntry H D W = record {
        name = m.name;
        version = m.version;
        functions = function_entries m;
      } in
      (
        e,
        record x { global_module = some m; global_entry = some e },
        rw fresh (rw named' (rw versioned' refl)),
        refl,
        visible_table-function_entries m,
        refl,
      )
