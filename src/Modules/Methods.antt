-- ===== src/Modules/Methods.antt =====
-- From a class's methods to their handlers: what `ClassEntity::init` (phper/src/classes.rs) registers and
-- what `invoke` (phper/src/functions.rs) then does on an object.
use phper.Base.{
  ◌+◌, some_inj, ℕ, ◌^◌, ◌<◌, ◌≡◌, ◌≢◌, refl, ap, sym, ◌∙◌, none, some, List, [], map, Bool-cases,
  inl, inr, returns, ok, ltb, if◌then◌else◌, length, get_elem?, Result,
}
use phper.Types.{PhpTypes}
use phper.Errors.{Error}
use phper.Values.Union.{ZVal}
use phper.Values.From.{ZvalMacros, from_z_object}
use phper.Values.Expect.{expect_z_obj}
use phper.Values.Casts.{as_z_obj}
use phper.Values.RoundTrip.{expect-from_pointers}
use phper.Engine.{Globals, Engine}
use phper.Engine.Run.{Run, ◌>>=◌}
use phper.Throwing.{Texts}
use phper.Functions.{
  PhpFlags, MethodEntity, ZendFunctionEntry, count_required, from_method_entity, entry,
}
use phper.Functions.Invoke.{
  BuildProfile, Callable, ExecuteData, ZendFunction, num_args, get_this, get_parameters_array,
  call_handler, finish, reject, invoke,
}
use phper.Functions.Layout.{IsRegistered, invoke-entry}
use phper.Classes.{ClassEntity, class_function_entries}
use phper.Modules.Dispatch.{get_elem?-map}
use phper.Modules.Tables.{visible, visible-methods}

-- A call on the object at `obj`.
abbrev pub call_on :
    {R : Type 0}
    → ⦃macros : ZvalMacros⦄ → ZendFunction (Callable R)
    → ℕ
    → List ZVal
    → ExecuteData (Callable R)
call_on func obj arguments = record {
  func = func;
  this = some (from_z_object obj);
  arguments = arguments;
}

module _ {R : Type 0} (engine : Engine R) (texts : Texts) ⦃php : PhpTypes⦄
    ⦃macros : ZvalMacros⦄ where
  this_lem :
      (func : ZendFunction (Callable R)) (obj : ℕ) (arguments : List ZVal)
      → obj ≢ 0
      → get_this (call_on func obj arguments) ≡ returns (some obj)
  unfolding get_this as_z_obj
  this_lem func obj arguments h =
      let read : expect_z_obj (from_z_object obj) ≡ returns (ok obj) =
        (expect-from_pointers obj [] (λ q. none) h).2 in
      rw read refl

  method_lem :
      (f : ℕ → List ZVal → Run R (Result ZVal Error)) (func : ZendFunction (Callable R)) (obj : ℕ)
      (arguments : List ZVal) (g : Globals R)
      → obj ≢ 0
      → call_handler engine texts (Callable.method f) (call_on func obj arguments) g
        ≡ (f obj arguments >>= finish engine texts) g
  unfolding call_handler get_parameters_array
  method_lem f func obj arguments g h = rw (this_lem func obj arguments h) refl

module _ {H D W : Type 0} ⦃flags : PhpFlags⦄ where
  pub visible_class :
      (c : ClassEntity H D W)
      → visible (class_function_entries c) ≡ some (map from_method_entity c.method_entities)
  visible_class c =
      (visible-methods c (record {
        interface_name = [];
        method_entities = [];
        extends_of = [];
        bind_interface = none;
      })).0

module _ {R D W : Type 0} (engine : Engine R) (texts : Texts) ⦃php : PhpTypes⦄ ⦃macros : ZvalMacros⦄
    ⦃flags : PhpFlags⦄ ⦃build : BuildProfile⦄ where
  -- Of the table that the engine sees for a class, it registers the entry at some place; a call of it on
  -- an object reaches the closure of the class's method at that place, with that object and the
  -- arguments, and its value is returned or its error thrown, where fewer than 2^32 - 1 arguments are
  -- declared, unless too few arguments are given.
  pub invoke-class_function_entries :
      (c : ClassEntity (Callable R) D W) (i : ℕ) (m : MethodEntity (Callable R))
      (f : ℕ → List ZVal → Run R (Result ZVal Error)) (func : ZendFunction (Callable R)) (obj : ℕ)
      (arguments : List ZVal) (g : Globals R)
      → get_elem? c.method_entities i ≡ some m
      → m.handler ≡ some (Callable.method f)
      → length m.arguments + 1 < 2 ^ 32
      → obj ≢ 0
      → (table : List (ZendFunctionEntry (Callable R))) (e : ZendFunctionEntry (Callable R))
      → visible (class_function_entries c) ≡ some table
      → get_elem? table i ≡ some e
      → IsRegistered func e
      → invoke engine texts (call_on func obj arguments) g
        ≡ (if ltb (length arguments) (count_required m.arguments)
              then reject engine texts (call_on func obj arguments)
              else f obj arguments >>= finish engine texts)
            g
  unfolding from_method_entity num_args
  invoke-class_function_entries c i m f func obj arguments g there handled fits h table e seen at
        registered =
      let table_eq : table ≡ map from_method_entity c.method_entities =
        some_inj (sym seen ∙ visible_class c) in
      let e_eq : e ≡ entry m.name m.arguments (some (Callable.method f)) (some m.visibility) =
        some_inj (
          sym at
          ∙ ap (λ l. get_elem? l i) table_eq
          ∙ get_elem?-map from_method_entity c.method_entities i m there)
        ∙ ap (λ o. entry m.name m.arguments o (some m.visibility)) handled in
      invoke-entry engine texts m.name m.arguments (Callable.method f) (some m.visibility)
        (call_on func obj arguments) g (rw (← e_eq) registered) fits
      ∙ elim (Bool-cases (ltb (length arguments) (count_required m.arguments))) [
        | inl few ↦ rw few refl
        | inr enough ↦ rw enough (method_lem engine texts f func obj arguments g h)
      ]
