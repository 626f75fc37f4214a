-- ===== src/Modules/Dispatch.antt =====
-- From a module's functions to their handlers: what `module_entry` (phper/src/modules.rs) registers and
-- what `invoke` (phper/src/functions.rs) then does.
use phper.Base.{
  some_inj, ℕ, zero, suc, ◌+◌, ◌^◌, ◌<◌, ◌≡◌, ap, sym, ◌∙◌, none, some, List, [], ◌∷◌, map, arith,
  ltb, if◌then◌else◌, length, get_elem?,
}
use phper.Types.{PhpTypes}
use phper.Values.From.{ZvalMacros}
use phper.Engine.{Globals, Engine}
use phper.Throwing.{Texts}
use phper.Functions.{
  PhpFlags, FunctionEntity, ZendFunctionEntry, count_required, from_function_entity,
}
use phper.Functions.Invoke.{
  BuildProfile, Callable, ExecuteData, num_args, call_handler, reject, invoke,
}
use phper.Functions.Layout.{IsRegistered, invoke-entry}
use phper.Modules.{Module, function_entries}
use phper.Modules.Tables.{visible_table, visible_table-function_entries}

module _ {A B : Type 0} (f : A → B) where
  pub get_elem?-map :
      (l : List A) (i : ℕ) (a : A) → get_elem? l i ≡ some a → get_elem? (map f l) i ≡ some (f a)
  get_elem?-map [] i a h = absurd (ground arith)
  get_elem?-map (b ∷ rest) zero a h = ap (λ o. elim o [ none ↦ none | some x ↦ some (f x) ]) h
  get_elem?-map (b ∷ rest) (suc i) a h = get_elem?-map rest i a h

module _ {R D W : Type 0} (engine : Engine R) (texts : Texts) ⦃php : PhpTypes⦄ ⦃macros : ZvalMacros⦄
    ⦃flags : PhpFlags⦄ ⦃build : BuildProfile⦄ where
  -- Of the table that the engine sees for a module, it registers the entry at some place; a call of what
  -- it registered reaches the handler of the module's function at that place, where fewer than 2^32 - 1
  -- arguments are declared, unless too few arguments are given.
  pub invoke-function_entries :
      (m : Module (Callable R) D W) (i : ℕ) (f : FunctionEntity (Callable R))
      (x : ExecuteData (Callable R)) (g : Globals R)
      → get_elem? m.function_entities i ≡ some f
      → length f.arguments + 1 < 2 ^ 32
      → (table : List (ZendFunctionEntry (Callable R))) (e : ZendFunctionEntry (Callable R))
      → visible_table (function_entries m) ≡ some table
      → get_elem? table i ≡ some e
      → IsRegistered x.func e
      → invoke engine texts x g
        ≡ (if ltb (num_args x) (count_required f.arguments)
              then reject engine texts x
              else call_handler engine texts f.handler x)
            g
  unfolding from_function_entity
  invoke-function_entries m i f x g there fits table e seen at registered =
      let table_eq : table ≡ map from_function_entity m.function_entities =
        some_inj (sym seen ∙ visible_table-function_entries m) in
      let e_eq : e ≡ from_function_entity f = some_inj (
        sym at
        ∙ ap (λ l. get_elem? l i) table_eq
        ∙ get_elem?-map from_function_entity m.function_entities i f there) in
      invoke-entry engine texts f.name f.arguments f.handler none x g (rw (← e_eq) registered) fits
