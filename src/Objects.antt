-- ===== src/Objects.antt =====
-- phper/src/classes.rs: `ClassEntry::init_object` and `new_object`; phper/src/objects.rs: `ZObj::call`,
-- `call_construct`, `get_property`, `set_property`, `to_ref_owned`. Objects are addresses.
pub mod Construct
pub mod Handles
mod Examples
use phper.Base.{ℕ, Option, none, some, List, Result, ok, err, ◌==◌, if◌then◌else◌}
use phper.Types
use phper.Types.{PhpTypes}
use phper.Errors.{Error, utf8, initialize_object}
use phper.Values.Union.{ZVal, from_ptr, get_type_info, z_obj, z_func}
use phper.Values.From.{ZvalMacros}
use phper.Strings.{to_str}
use phper.Engine.{Globals, Engine}
use phper.Engine.Run.{Run, pure, ◌>>=◌, ◌>>◌, step, call, reads, lift, or_return}
use phper.Calls.{call_raw_common, call_internal, z_func_call}

module _ {R : Type 0} (engine : Engine R) ⦃php : PhpTypes⦄ where
  init_error : List ℕ → Run R (Result ℕ Error)
  unfolding to_str
  init_error name = do
    name ← lift (to_str name)
    pure (elim name [
      | ok s ↦ err (initialize_object (record { class_name = s }))
      | err e ↦ err (utf8 e)
    ])

  -- The object that `object_init_ex` stored, whose reference moves to the result.
  init_object_of : ℕ → Option ZVal → Run R (Result ℕ Error)
  unfolding init_error from_ptr z_obj
  init_object_of ce none = do name ← reads (engine.class_name ce); init_error name
  init_object_of ce (some val) = do p ← lift (z_obj val.value); p ← lift (from_ptr p); pure (ok p)

  unfoldable pub init_object : (ce : ℕ) → Run R (Result ℕ Error)
  unfolding init_object_of
  init_object ce = do made ← call (engine.object_init_ex ce); init_object_of ce made

  -- The constructor found, as a value that holds a function; null if there is none.
  constructor_val : (get : ℕ → Globals R → ℕ × Globals R) → ℕ → ZVal → Globals R → ZVal × Globals R
  constructor_val get obj val g =
      let (f, g') = get obj g in (if f == 0 then val else engine.func_val f, g')

  -- Calls the constructor that was found, and forgets what it returns.
  run_constructor : ℕ → ZVal → List ZVal → Run R (Result (Unit {0}) Error)
  unfolding get_type_info z_func from_ptr z_func_call
  run_constructor obj val arguments = if Types.is_null (get_type_info val) then pure (ok tt) else do
    f ← lift (z_func val.value)
    f ← lift (from_ptr f)
    result ← z_func_call engine f (some obj) arguments
    or_return result (λ ret. step (engine.zval_ptr_dtor ret) >> pure (ok tt))

  call_construct_with :
      Option (ℕ → Globals R → ℕ × Globals R) → ℕ → List ZVal → Run R (Result (Unit {0}) Error)
  unfolding call_raw_common constructor_val run_constructor
  call_construct_with none obj arguments = pure (ok tt)
  call_construct_with (some get) obj arguments = do
    found ← call_raw_common engine (constructor_val get obj)
    or_return found (λ val. run_constructor obj val arguments)

  unfoldable pub call_construct : (obj : ℕ) → List ZVal → Run R (Result (Unit {0}) Error)
  unfolding call_construct_with
  call_construct obj arguments = call_construct_with engine.get_constructor obj arguments

  -- An object whose constructor failed is released.
  unfoldable pub new_object : (ce : ℕ) → List ZVal → Run R (Result ℕ Error)
  unfolding init_object call_construct
  new_object ce arguments = do
    made ← init_object ce
    or_return made (λ obj. do
      constructed ← call_construct obj arguments
      elim constructed [
        | ok _ ↦ pure (ok obj)
        | err e ↦ step (engine.object_release obj) >> pure (err e)
      ])

  -- `ZObj::get_property`; the engine always has a value to return.
  unfoldable pub get_property : (obj : ℕ) → List ℕ → Run R ZVal
  get_property obj name = reads (engine.read_property obj name)

  -- `ZObj::set_property`: the engine copies the value, and the crate drops its own.
  unfoldable pub set_property : (obj : ℕ) → List ℕ → ZVal → Run R (Unit {0})
  set_property obj name val =
      step (engine.update_property obj name val) >> step (engine.zval_ptr_dtor val)

  unfoldable pub call_method :
      ⦃macros : ZvalMacros⦄ → (obj : ℕ) → List ℕ → List ZVal → Run R (Result ZVal Error)
  unfolding call_internal
  call_method obj method_name arguments = do
    method ← call (engine.new_string method_name)
    result ← call_internal engine method (some obj) arguments
    step (engine.zval_ptr_dtor method)
    pure result

  -- `ToRefOwned for ZObj`: one more reference on the same object.
  unfoldable pub to_ref_owned : (obj : ℕ) → Run R ℕ
  to_ref_owned obj = step (engine.addref obj) >> pure obj
