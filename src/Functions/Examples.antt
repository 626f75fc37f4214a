-- ===== src/Functions/Examples.antt =====
-- A function of two arguments, one of them optional, in phper/src/functions.rs.
use phper.Base.{◌+◌, ◌≡◌, refl, true, false, none, some, List, [], ◌∷◌, ok, arith, bytes, get_elem?}
use phper.Values.Union.{ZVal, unset}
use phper.Engine.Run.{pure}
use phper.Functions.{Argument, ZendFunctionEntry, entry}
use phper.Functions.Invoke.{Callable, ZendFunction, ExecuteData, num_args, call_handler, invoke}
use phper.Functions.Layout.{required_of, invoke-entry}
use phper.Samples.{php8, macros8, flags8, no_texts, engine8, calm, build8}

abbrev null_val : ZVal
null_val = record { type_info = 1; value = unset }

abbrev handler : Callable (Unit {0})
handler = Callable.function (λ args. pure (ok null_val))

abbrev arguments : List Argument
arguments =
    record { name = bytes "a"; pass_by_ref = false; required = true }
    ∷ record { name = bytes "b"; pass_by_ref = true; required = false }
    ∷ []

abbrev made : ZendFunctionEntry (Callable (Unit {0}))
made = entry ⦃flags = flags8⦄ (bytes "f") arguments (some handler) none

abbrev registered : ZendFunction (Callable (Unit {0}))
registered = record {
  arg_info = λ i. get_elem? made.arg_info (i + 1);
  num_args = made.num_args;
  required_num_args = required_of made.arg_info;
  function_or_method_name = bytes "f";
}

abbrev call_with_one : ExecuteData (Callable (Unit {0}))
call_with_one = record { func = registered; this = none; arguments = null_val ∷ [] }

invoke-entry_example :
    invoke engine8 no_texts ⦃php = php8⦄ ⦃macros = macros8⦄ ⦃build = build8⦄ call_with_one calm
    ≡ call_handler engine8 no_texts ⦃php = php8⦄ ⦃macros = macros8⦄ handler call_with_one calm
unfolding entry call_handler num_args
invoke-entry_example =
    invoke-entry engine8 no_texts ⦃php = php8⦄ ⦃macros = macros8⦄ ⦃flags = flags8⦄ ⦃build = build8⦄
      (bytes "f") arguments handler none call_with_one calm
      (record { arg_info = λ i. refl; num_args = refl; required = refl }) (omega arith)
