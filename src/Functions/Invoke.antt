-- ===== src/Functions/Invoke.antt =====
-- phper/src/functions.rs: `invoke`, the one entry of all registered functions, and the `Callable`s;
-- phper/src/values.rs: `ExecuteData`.
use phper.Base.{
  ℕ, ◌+◌, ◌%◌, ◌^◌, Bool, Option, none, some, List, Outcome, returns, panics, undefined, Result, ok,
  err, ltb, if◌then◌else◌, length,
}
use phper.Types.{PhpTypes}
use phper.Errors.{Error, Utf8Error, argument_count, utf8}
use phper.Values.Union.{ZVal}
use phper.Values.From.{ZvalMacros, from_unit}
use phper.Values.Casts.{as_z_obj}
use phper.Engine.{Engine}
use phper.Engine.Run.{Run, pure, panic, ◌>>=◌, ◌>>◌, lift}
use phper.Strings.{to_str}
use phper.Throwing.{Texts, throw_error}
use phper.Functions.{InternalArgInfo, begin, arg, zeroed, callable}

-- A handler: what the closures of `add_function` and `add_method` do, their result converted.
pub data Callable (R : Type 0) : Type 0 where
  function : (List ZVal → Run R (Result ZVal Error)) → Callable R
  method : (ℕ → List ZVal → Run R (Result ZVal Error)) → Callable R

-- The common part of a `zend_function`; `arg_info` is a pointer, read at an offset.
pub record ZendFunction (H : Type 0) : Type 0 where
  pub arg_info : ℕ → Option (InternalArgInfo H)
  pub num_args : ℕ
  pub required_num_args : ℕ
  pub function_or_method_name : List ℕ

-- `zend_execute_data`; `this` is what `getThis()` points at, `none` for a null pointer.
pub record ExecuteData (H : Type 0) : Type 0 where
  pub func : ZendFunction H
  pub this : Option ZVal
  pub arguments : List ZVal

module _ {H : Type 0} where
  unfoldable pub common_num_args : ExecuteData H → ℕ
  common_num_args x = x.func.num_args

  unfoldable pub common_required_num_args : ExecuteData H → ℕ
  common_required_num_args x = x.func.required_num_args

  unfoldable pub common_arg_info : ExecuteData H → ℕ → Option (InternalArgInfo H)
  common_arg_info x = x.func.arg_info

  unfoldable pub num_args : ExecuteData H → ℕ
  num_args x = length x.arguments

  unfoldable pub get_parameters_array : ExecuteData H → List ZVal
  get_parameters_array x = x.arguments

  unfoldable pub get_this : ⦃php : PhpTypes⦄ → ExecuteData H → Outcome (Option ℕ)
  unfolding as_z_obj
  get_this x = elim x.this [ none ↦ panics | some v ↦ as_z_obj v ]

-- The handler whose pointer is the bytes of an argument info.
unfoldable pub read_callable : {H : Type 0} → Option (InternalArgInfo H) → Outcome H
read_callable (some (callable h)) = returns h
read_callable (some (begin r n)) = undefined
read_callable (some (arg r n)) = undefined
read_callable (some zeroed) = undefined
read_callable none = undefined

-- How the extension was compiled: whether an addition that leaves its type is a panic.
pub record BuildProfile : Type 0 where
  pub overflow_checks : Bool

-- `n + 1` in `u32`: past its end a panic, or the sum wraps around.
unfoldable pub add_one : ⦃build : BuildProfile⦄ → ℕ → Outcome ℕ
add_one ⦃build = build⦄ n =
    if ltb (n + 1) (2 ^ 32)
    then returns (n + 1)
    else if build.overflow_checks
    then panics
    else returns ((n + 1) % 2 ^ 32)

-- The error about too few arguments, named by the function if its name is UTF-8.
name_count_error : ℕ → ℕ → Result (List ℕ) Utf8Error → Error
name_count_error required given (ok name) =
    argument_count (record { function_name = name; expect_count = required; given_count = given })
name_count_error required given (err e) = utf8 e

module _ {R : Type 0} (engine : Engine R) (texts : Texts) ⦃php : PhpTypes⦄
    ⦃macros : ZvalMacros⦄ where
  -- The two arms of a handler's result: the value is stored, or the error is thrown and null stored.
  unfoldable pub finish : Result ZVal Error → Run R ZVal
  unfolding throw_error
  finish (ok z) = pure z
  finish (err e) = throw_error engine texts e >> pure from_unit

  -- `Callable::call`; the result is the new return value.
  unfoldable pub call_handler : Callable R → ExecuteData (Callable R) → Run R ZVal
  unfolding finish get_this get_parameters_array
  call_handler (function f) x = do result ← f (get_parameters_array x); finish result
  call_handler (method f) x = do
    this ← lift (get_this x)
    elim this [
      | none ↦ panic
      | some obj ↦ do result ← f obj (get_parameters_array x); finish result
    ]

  -- Too few arguments: the error is thrown and null is returned.
  unfoldable pub reject : ExecuteData (Callable R) → Run R ZVal
  unfolding to_str name_count_error throw_error num_args common_required_num_args
  reject x = do
    func_name ← lift (to_str x.func.function_or_method_name)
    throw_error engine texts (name_count_error (common_required_num_args x) (num_args x) func_name)
    pure from_unit

  unfoldable pub invoke : ⦃build : BuildProfile⦄ → ExecuteData (Callable R) → Run R ZVal
  unfolding add_one common_num_args common_arg_info read_callable reject num_args call_handler
      common_required_num_args
  invoke x = do
    offset ← lift (add_one (common_num_args x))
    handler ← lift (read_callable (common_arg_info x offset))
    if ltb (num_args x) (common_required_num_args x) then reject x else call_handler handler x
