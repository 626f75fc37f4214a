-- ===== src/Functions/Frame.antt =====
-- phper/src/functions.rs: what a `ZFunc` says of itself; phper/src/values.rs: the parameters and `$this` of
-- an `ExecuteData`. Pointers are addresses, and 0 is null.
use phper.Base.{
  ℕ, ◌^◌, Option, none, some, List, ◌++◌, Outcome, returns, panics, undefined, ◌>>=◌, Result, bytes,
  ltb, ◌==◌, if◌then◌else◌, get_elem?,
}
use phper.Types.{PhpTypes}
use phper.Errors.{Error}
use phper.Values.Union
use phper.Values.Union.{ZVal, try_from_ptr}
use phper.Values.Casts.{as_mut_z_obj}
use phper.Engine.{Globals, Engine}
use phper.Engine.Run.{Run}
use phper.Calls.{call_raw_common}
use phper.Functions.Invoke.{ExecuteData}

-- `common.function_name` and `common.scope` of a `zend_function`, by address.
pub record FunctionNames : Type 0 where
  pub function_name : ℕ → ℕ
  pub scope : ℕ → ℕ
  pub class_name : ℕ → List ℕ
  pub string_at : ℕ → List ℕ

-- `ZFunc::from_mut_ptr`.
unfoldable pub z_func_from_mut_ptr : ℕ → Outcome ℕ
unfolding Union.from_ptr
z_func_from_mut_ptr p = Union.from_ptr p

module _ (names : FunctionNames) where
  unfoldable pub get_function_name : ℕ → Option ℕ
  unfolding try_from_ptr
  get_function_name f = try_from_ptr (names.function_name f)

  -- `ZFunc::get_class`.
  unfoldable pub func_class : ℕ → Outcome (Option ℕ)
  unfolding Union.from_ptr
  func_class f =
      let ptr = names.scope f in
      if ptr == 0 then returns none else (do p ← Union.from_ptr ptr; returns (some p))

  -- phper-sys/php_wrapper.c, `phper_get_function_or_method_name` before PHP 8, as bytes.
  unfoldable pub get_function_or_method_name : ℕ → List ℕ
  get_function_or_method_name f =
      if names.scope f == 0
      then (if names.function_name f == 0
          then bytes "main"
          else names.string_at (names.function_name f))
      else names.class_name (names.scope f)
        ++ (bytes "::" ++ names.string_at (names.function_name f))

-- `ZFunc::call` before PHP 8: the called scope is the object's class, and else the function's own.
-- `zend_call_function` takes the function, the object, the called scope and the arguments.
called_scope : (object_class : Option ℕ) → (scope : ℕ) → ℕ
called_scope none scope = scope
called_scope (some ce) scope = if ce == 0 then scope else ce

unfoldable pub z_func_call_7 :
    {R : Type 0}
    → Engine R
    → ⦃php : PhpTypes⦄ → FunctionNames
    → (zend_call_function : ℕ → ℕ → ℕ → List ZVal → ZVal → Globals R → ZVal × Globals R)
    → (function : ℕ) → Option ℕ
    → List ZVal
    → Run R (Result ZVal Error)
unfolding call_raw_common called_scope
z_func_call_7 engine names zend_call_function function none arguments =
    call_raw_common engine (λ ret.
      zend_call_function function 0 (called_scope none (names.scope function)) arguments ret)
z_func_call_7 engine names zend_call_function function (some obj) arguments =
    call_raw_common engine (λ ret g.
      zend_call_function function obj
        (called_scope (some (engine.class_of obj g.rest)) (names.scope function)) arguments ret g)

-- `ExecuteData::func`, by the address of the function.
unfoldable pub execute_func : (func_ptr : ℕ) → Outcome ℕ
unfolding z_func_from_mut_ptr
execute_func func_ptr = z_func_from_mut_ptr func_ptr

-- The slot behind the arguments holds something else.
slot : Option ZVal → Outcome ZVal
slot none = undefined
slot (some v) = returns v

module _ {H : Type 0} where
  unfoldable pub get_this_mut : ⦃php : PhpTypes⦄ → ExecuteData H → Outcome (Option ℕ)
  unfolding as_mut_z_obj
  get_this_mut x = elim x.this [ none ↦ panics | some v ↦ as_mut_z_obj v ]

  -- The index becomes a C `int`, with a panic if it does not fit; it is not compared with the arguments.
  unfoldable pub get_parameter : ExecuteData H → ℕ → Outcome ZVal
  unfolding slot
  get_parameter x index = if ltb index (2 ^ 31) then slot (get_elem? x.arguments index) else panics

  unfoldable pub get_mut_parameter : ExecuteData H → ℕ → Outcome ZVal
  unfolding slot
  get_mut_parameter x index =
      if ltb index (2 ^ 31) then slot (get_elem? x.arguments index) else panics
