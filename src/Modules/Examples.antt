-- ===== src/Modules/Examples.antt =====
-- A module with one function and one interface (phper/src/modules.rs).
use phper.Base.{
  ◌+◌, Result, ok, pos, true, false, get_elem?, ℕ, ◌≡◌, refl, none, some, List, [], ◌∷◌, map,
  returns, arith, bytes,
}
use phper.Functions.{FunctionEntity, MethodEntity, from_function_entity, from_method_entity}
use phper.Classes.{ClassEntity, InterfaceEntity, class_function_entries, interface_function_entries}
use phper.Ini.{PhpIni}
use phper.Modules.{Module, ModuleEntry, Extension, ModuleApi, module_entry}
use phper.Modules.Tables.{visible, visible_table, visible-methods, module_entry-module_entry}
use phper.Engine.Run.{Run, pure}
use phper.Values.Union.{ZVal, unset, long}
use phper.Functions.{ZendFunctionEntry}
use phper.Functions.Invoke.{Callable, ExecuteData, num_args, call_handler, invoke}
use phper.Functions.Layout.{required_of}
use phper.Modules.Dispatch.{invoke-function_entries}
use phper.Modules.Methods.{call_on, visible_class, invoke-class_function_entries}
use phper.Errors.{Error}
use phper.Functions.Invoke.{ZendFunction, finish}
use phper.Modules.Tables.{visible_table-function_entries}
use phper.Samples.{php8, macros8, no_texts, engine8, calm, build8}
use phper.Samples.{flags8}

abbrev ini8 : PhpIni
ini8 = record { ini_all = 7; ini_user = 1; ini_perdir = 2; ini_system = 4 }

abbrev hello : FunctionEntity ℕ
hello = record { name = bytes "hello"; handler = 1; arguments = [] }

abbrev run : MethodEntity ℕ
run = record { name = bytes "run"; handler = some 2; arguments = []; visibility = 1 }

abbrev runner : InterfaceEntity ℕ ℕ
runner = record {
  interface_name = bytes "Runner";
  method_entities =
      record { name = bytes "run"; handler = none; arguments = []; visibility = 65 } ∷ [];
  extends_of = [];
  bind_interface = some 1;
}

abbrev foo : ClassEntity ℕ ℕ ℕ
foo = record {
  class_name = bytes "Foo";
  state_constructor = λ w. returns (42, w);
  method_entities = run ∷ [];
  property_entities = [];
  parent = none;
  interfaces = [];
  bind_class = some 0;
  state_cloner = none;
}

abbrev demo : Module ℕ ℕ ℕ
demo = record {
  name = bytes "demo";
  version = bytes "1";
  author = [];
  module_init = none;
  module_shutdown = none;
  request_init = none;
  request_shutdown = none;
  function_entities = hello ∷ [];
  class_entities = foo ∷ [];
  interface_entities = runner ∷ [];
  constants = [];
  ini_entities = [];
  infos = [];
}

abbrev fresh : Extension ℕ ℕ ℕ
fresh = record {
  global_module = none;
  global_entry = none;
  registry = record { statics = λ s. 0; world = 0 };
}

abbrev api8 : ModuleApi ℕ ℕ ℕ
api8 = record {
  classes = record {
    register_internal_class = λ name slots w. (10 + w, w + 1);
    register_internal_class_ex = λ name slots parent w. (10 + w, w + 1);
    register_internal_interface = λ name slots w. (10 + w, w + 1);
    class_implements = λ ce i w. w;
    set_create_object = λ ce w. w;
  };
  properties = record {
    declare_null = λ ce name access w. w;
    declare_bool = λ ce name b access w. w;
    declare_long = λ ce name i access w. w;
    declare_double = λ ce name f access w. w;
    declare_stringl = λ ce name s access w. w;
  };
  constants = record {
    flags = 3;
    register_null = λ name c n w. w;
    register_bool = λ name b c n w. w;
    register_long = λ name i c n w. w;
    register_double = λ name f c n w. w;
    register_stringl = λ name s c n w. w;
  };
  register_ini_entries = λ l n w. w;
  unregister_ini_entries = λ n w. w;
}

visible-methods_example :
    (visible (class_function_entries ⦃flags = flags8⦄ foo)
      ≡ some (from_method_entity ⦃flags = flags8⦄ run ∷ []))
    × (visible (interface_function_entries {D = ℕ} ⦃flags = flags8⦄ runner)
        ≡ some (map (from_method_entity ⦃flags = flags8⦄) runner.method_entities))
visible-methods_example = visible-methods ⦃flags = flags8⦄ foo runner

module_entry-module_entry_example :
    (e : ModuleEntry ℕ ℕ ℕ) × (x : Extension ℕ ℕ ℕ) × (module_entry ⦃flags = flags8⦄ demo fresh
      ≡ returns (e, x))
    × (x.global_module ≡ some demo)
    × (visible_table e.functions ≡ some (from_function_entity ⦃flags = flags8⦄ hello ∷ []))
    × (module_entry ⦃flags = flags8⦄ (record demo { version = [] }) x ≡ returns (e, x))
module_entry-module_entry_example =
    module_entry-module_entry ⦃flags = flags8⦄ demo (record demo { version = [] }) fresh refl
      (omega arith) (omega arith)

abbrev null_val : ZVal
null_val = record { type_info = 1; value = unset }

abbrev says : Callable (Unit {0})
says = Callable.function (λ args. pure (ok null_val))

abbrev speaker : Module (Callable (Unit {0})) ℕ ℕ
speaker = record {
  name = bytes "speaker";
  version = bytes "1";
  author = [];
  module_init = none;
  module_shutdown = none;
  request_init = none;
  request_shutdown = none;
  function_entities = record { name = bytes "say"; handler = says; arguments = [] } ∷ [];
  class_entities = [];
  interface_entities = [];
  constants = [];
  ini_entities = [];
  infos = [];
}

abbrev says_entry : ZendFunctionEntry (Callable (Unit {0}))
says_entry =
    from_function_entity ⦃flags = flags8⦄
      (record { name = bytes "say"; handler = says; arguments = [] })

abbrev says_call : ExecuteData (Callable (Unit {0}))
says_call = record {
  func = record {
    arg_info = λ i. get_elem? says_entry.arg_info (i + 1);
    num_args = says_entry.num_args;
    required_num_args = required_of says_entry.arg_info;
    function_or_method_name = bytes "say";
  };
  this = none;
  arguments = [];
}

invoke-function_entries_example :
    invoke engine8 no_texts ⦃php = php8⦄ ⦃macros = macros8⦄ ⦃build = build8⦄ says_call calm
    ≡ call_handler engine8 no_texts ⦃php = php8⦄ ⦃macros = macros8⦄ says says_call calm
unfolding call_handler num_args
invoke-function_entries_example =
    invoke-function_entries engine8 no_texts ⦃php = php8⦄ ⦃macros = macros8⦄ ⦃flags = flags8⦄
      ⦃build = build8⦄ speaker 0 (record { name = bytes "say"; handler = says; arguments = [] })
      says_call calm refl (omega arith) (says_entry ∷ []) says_entry
      (visible_table-function_entries ⦃flags = flags8⦄ speaker) refl
      (record { arg_info = λ i. refl; num_args = refl; required = refl })

-- A method that returns its first argument.
abbrev first_of : ℕ → List ZVal → Run (Unit {0}) (Result ZVal Error)
first_of obj [] = pure (ok null_val)
first_of obj (v ∷ rest) = pure (ok v)

abbrev first : MethodEntity (Callable (Unit {0}))
first = record {
  name = bytes "first";
  handler = some (Callable.method first_of);
  arguments = record { name = bytes "v"; pass_by_ref = false; required = true } ∷ [];
  visibility = 1;
}

abbrev firsts : ClassEntity (Callable (Unit {0})) ℕ ℕ
firsts = record {
  class_name = bytes "Firsts";
  state_constructor = λ w. returns (42, w);
  method_entities = first ∷ [];
  property_entities = [];
  parent = none;
  interfaces = [];
  bind_class = none;
  state_cloner = none;
}

abbrev first_entry : ZendFunctionEntry (Callable (Unit {0}))
first_entry = from_method_entity ⦃flags = flags8⦄ first

abbrev first_func : ZendFunction (Callable (Unit {0}))
first_func = record {
  arg_info = λ i. get_elem? first_entry.arg_info (i + 1);
  num_args = first_entry.num_args;
  required_num_args = required_of first_entry.arg_info;
  function_or_method_name = bytes "Firsts::first";
}

abbrev three : ZVal
three = record { type_info = 4; value = long (pos 3) }

invoke-class_function_entries_example :
    invoke engine8 no_texts ⦃php = php8⦄ ⦃macros = macros8⦄ ⦃build = build8⦄
      (call_on ⦃macros = macros8⦄ first_func 50 (three ∷ []))
      calm
    ≡ returns (three, calm)
unfolding finish
invoke-class_function_entries_example =
    invoke-class_function_entries engine8 no_texts ⦃php = php8⦄ ⦃macros = macros8⦄ ⦃flags = flags8⦄
      ⦃build = build8⦄ firsts 0 first first_of first_func 50 (three ∷ []) calm refl refl
      (omega arith) (omega arith) (first_entry ∷ []) first_entry
      (visible_class ⦃flags = flags8⦄ firsts) refl
      (record { arg_info = λ i. refl; num_args = refl; required = refl })
