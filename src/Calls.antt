-- ===== src/Calls.antt =====
-- phper/src/errors.rs: `ExceptionGuard`; phper/src/functions.rs: `call_raw_common`, `call_internal`,
-- `ZFunc::call` (PHP 8). The closure that runs inside `call_raw_common` is an argument.
pub mod Guard
mod Examples
use phper.Base.{
  ℕ, ◌-◌, Bool, true, false, Option, none, some, List, [], ◌∷◌, Result, ok, err, ◌==◌,
  if◌then◌else◌,
}
use phper.Types
use phper.Types.{PhpTypes}
use phper.Errors.{Error, ThrowObject, throw, not_implement_throwable, not_implement_throwable_error}
use phper.Values.Union.{ZVal, get_type_info}
use phper.Values.From.{ZvalMacros, from_unit, default, from_z_object}
use phper.Engine.{Globals, Engine}
use phper.Engine.Run.{Run, pure, panic, ◌>>=◌, ◌>>◌, step, call, reads}

-- `ExceptionGuard::default`: the pending exception is pushed, and none is pending.
unfoldable pub guard_default : {R : Type 0} → Globals R → Globals R
guard_default g = record g { exception = 0; exception_stack = g.exception ∷ g.exception_stack }

pop_exception : {R : Type 0} → List ℕ → Run R (Unit {0})
pop_exception [] = panic
pop_exception (e ∷ rest) = step (λ g. record g { exception = e; exception_stack = rest })

-- `Drop for ExceptionGuard`: the exception on top is pending again; a panic on an empty stack.
unfoldable pub guard_drop : {R : Type 0} → Run R (Unit {0})
unfolding pop_exception
guard_drop g = pop_exception g.exception_stack g

module _ {R : Type 0} (engine : Engine R) where
  -- `ThrowObject::new`: an object that is no `Throwable` is released.
  unfoldable pub throw_object_new : ℕ → Run R (Result ThrowObject Error)
  throw_object_new obj = do
    is_throwable ← reads (λ r. engine.instance_of (engine.class_of obj r) engine.throwable_ce r)
    if is_throwable
        then pure (ok (record { object = obj }))
        else step (engine.object_release obj)
          >> pure (err (not_implement_throwable not_implement_throwable_error))

module _ {R : Type 0} (engine : Engine R) ⦃php : PhpTypes⦄ where
  -- `if ret.get_type_info().is_undef() { ret = ().into(); }`: the old value is dropped.
  null_if_undef : ZVal → Run R ZVal
  unfolding get_type_info
  null_if_undef ret =
      if Types.is_undef (get_type_info ret)
      then step (engine.zval_ptr_dtor ret) >> pure from_unit
      else pure ret

  -- The pending exception is taken out and becomes the error, and the return value is dropped.
  take_exception : ZVal → ℕ → Run R (Result ZVal Error)
  unfolding throw_object_new
  take_exception ret e = do
    step (λ g. record g { exception = 0 })
    thrown ← throw_object_new engine e
    step (engine.zval_ptr_dtor ret)
    pure (elim thrown [ ok t ↦ err (throw t) | err error ↦ err error ])

  pending : Run R ℕ
  pending = call (λ g. (g.exception, g))

  unfoldable pub call_raw_common : (ZVal → Globals R → ZVal × Globals R) → Run R (Result ZVal Error)
  unfolding guard_default guard_drop default null_if_undef take_exception pending
  call_raw_common call_fn = do
    step guard_default
    ret ← call (call_fn default)
    ret ← null_if_undef ret
    e ← pending
    result ← if e == 0 then pure (ok ret) else take_exception ret e
    guard_drop
    pure result

  -- `call_internal`: the object, if any, is held by a value of its own during the call.
  unfoldable pub call_internal :
      ⦃macros : ZvalMacros⦄ → ZVal → Option ℕ → List ZVal → Run R (Result ZVal Error)
  unfolding call_raw_common from_z_object
  call_internal func none arguments =
      call_raw_common (λ ret. engine.call_user_function none func arguments ret)
  call_internal func (some obj) arguments = do
    step (engine.addref obj)
    let object_val = from_z_object obj
    result ← call_raw_common (λ ret. engine.call_user_function (some object_val) func arguments ret)
    step (engine.zval_ptr_dtor object_val)
    pure result

  -- `functions::call` and `ZVal::call`: the callable is dropped after the call by `functions::call`.
  unfoldable pub call_callable :
      ⦃macros : ZvalMacros⦄ → ZVal → List ZVal → Run R (Result ZVal Error)
  unfolding call_internal
  call_callable func arguments = do
    result ← call_internal func none arguments
    step (engine.zval_ptr_dtor func)
    pure result

  -- `ZFunc::call`: the class is the object's, and null with no object.
  unfoldable pub z_func_call : (function : ℕ) → Option ℕ → List ZVal → Run R (Result ZVal Error)
  unfolding call_raw_common
  z_func_call function none arguments =
      call_raw_common (λ ret. engine.call_known_function function 0 0 arguments ret)
  z_func_call function (some obj) arguments = call_raw_common (λ ret g.
      engine.call_known_function function obj (engine.class_of obj g.rest) arguments ret g)
