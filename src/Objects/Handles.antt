-- ===== src/Objects/Handles.antt =====
-- phper/src/objects.rs: what a `ZObj` says of itself, and `ZObject` as an owner of one reference;
-- phper/src/classes.rs: `ClassEntry::get_name`, `is_instance_of` and `Debug`. A `ZObject` is its pointer.
use phper.Base.{ℕ, Bool, List, [], Outcome, unwrap, unwrap_ok, Result, ok, err, bytes}
use phper.Types.{PhpTypes}
use phper.Errors.{Error, FromBytesWithNulError}
use phper.Values.Union
use phper.Values.Union.{ZVal, try_from_ptr}
use phper.Strings.{to_c_str}
use phper.Engine.{Engine}
use phper.Engine.Run.{Run, pure, ◌>>=◌, step, reads, lift, or_return}
use phper.Objects.{init_object, new_object, to_ref_owned}
use phper.Classes.Create.Handles.{from_raw_object, object_into_raw}
use phper.Classes.Lookup.{from_globals}

-- `Deref` and `DerefMut`.
unfoldable pub deref : ℕ → Outcome ℕ
unfolding try_from_ptr
deref inner = unwrap (try_from_ptr inner)

-- `f.debug_struct(name)` with the class's name, or the error of the conversion, and the handle.
pub record DebugObject : Type 0 where
  pub name : List ℕ
  pub class_field : Result (List ℕ) FromBytesWithNulError
  pub handle_field : ℕ

module _ {R : Type 0} (engine : Engine R) where
  unfoldable pub handle : ℕ → Run R ℕ
  handle obj = reads (engine.handle obj)

  unfoldable pub gc_refcount : ℕ → Run R ℕ
  gc_refcount obj = reads (engine.refcount obj)

  unfoldable pub get_class : ℕ → Run R ℕ
  unfolding Union.from_ptr
  get_class obj = do ce ← reads (engine.class_of obj); lift (Union.from_ptr ce)

  unfoldable pub get_mut_class : ℕ → Run R ℕ
  unfolding Union.from_ptr
  get_mut_class obj = do ce ← reads (engine.class_of obj); lift (Union.from_ptr ce)

  -- `ClassEntry::get_name`: the bytes of the name.
  unfoldable pub get_name : ℕ → Run R (List ℕ)
  get_name ce = reads (engine.class_name ce)

  unfoldable pub is_instance_of : ℕ → ℕ → Run R Bool
  is_instance_of ce parent = reads (engine.instance_of ce parent)

  -- `Debug for ClassEntry`.
  unfoldable pub fmt_class : ℕ → Run R (Result (List ℕ) FromBytesWithNulError)
  unfolding get_name to_c_str
  fmt_class ce = do name ← get_name ce; lift (to_c_str name)

  unfoldable pub common_fmt : ℕ → List ℕ → Run R DebugObject
  unfolding get_class get_name to_c_str handle
  common_fmt this name = do
    ce ← get_class this
    class_name ← get_name ce
    c ← lift (to_c_str class_name)
    h ← handle this
    pure (record { name = name; class_field = c; handle_field = h })

  -- `Debug for ZObj`, `ZObject`, `StateObj` and `StateObject`, of the object's pointer.
  unfoldable pub fmt_z_obj : ℕ → Run R DebugObject
  unfolding common_fmt
  fmt_z_obj this = common_fmt this (bytes "ZObj")

  unfoldable pub fmt_z_object : ℕ → Run R DebugObject
  unfolding common_fmt deref
  fmt_z_object self = do this ← lift (deref self); common_fmt this (bytes "ZObject")

  unfoldable pub fmt_state_obj : ℕ → Run R DebugObject
  unfolding common_fmt
  fmt_state_obj this = common_fmt this (bytes "StateObj")

  unfoldable pub fmt_state_object : ℕ → Run R DebugObject
  unfolding common_fmt deref
  fmt_state_object self = do this ← lift (deref self); common_fmt this (bytes "StateObject")

  -- The property's value, through the pointer that `zend_read_property` gives.
  unfoldable pub inner_get_property : (object : ℕ) → List ℕ → Run R ZVal
  inner_get_property object name = reads (engine.read_property object name)

  unfoldable pub get_mut_property : (obj : ℕ) → List ℕ → Run R ZVal
  unfolding inner_get_property
  get_mut_property obj name = inner_get_property obj name

  unfoldable pub ref_clone : ⦃php : PhpTypes⦄ → ℕ → Run R ℕ
  unfolding deref to_ref_owned
  ref_clone self = do obj ← lift (deref self); to_ref_owned engine obj

  -- `Drop for ZObject`.
  unfoldable pub drop_object : ℕ → Run R (Unit {0})
  unfolding deref
  drop_object self = do obj ← lift (deref self); step (engine.object_release obj)

module _ {R : Type 0} (engine : Engine R) ⦃php : PhpTypes⦄ (to_lowercase : List ℕ → List ℕ)
    (class_table : List ℕ → ℕ) where
  -- `ZObject::new`.
  unfoldable pub new : ℕ → List ZVal → Run R (Result ℕ Error)
  unfolding new_object
  new class_entry arguments = new_object engine class_entry arguments

  unfoldable pub new_by_class_name : List ℕ → List ZVal → Run R (Result ℕ Error)
  unfolding new from_globals
  new_by_class_name class_name arguments =
      or_return (from_globals to_lowercase class_table class_name) (λ ce. new ce arguments)

  unfoldable pub new_by_std_class : Run R ℕ
  unfolding new_by_class_name
  new_by_std_class = do made ← new_by_class_name (bytes "stdclass") []; lift (unwrap_ok made)

-- phper/src/classes.rs: `StaticStateClass`, by the pointer that was bound to it.
module _ {R : Type 0} (engine : Engine R) ⦃php : PhpTypes⦄ where
  -- `.map(ZObject::into_raw).map(StateObject::from_raw_object)`: a `StateObject` of the object made.
  state_object_of : Result ℕ Error → Run R (Result ℕ Error)
  unfolding object_into_raw from_raw_object
  state_object_of (ok obj) = do
    raw ← lift (object_into_raw obj)
    p ← lift (from_raw_object raw)
    pure (ok p)
  state_object_of (err e) = pure (err e)

  unfoldable pub static_new_object : (bound : ℕ) → List ZVal → Run R (Result ℕ Error)
  unfolding Union.from_ptr new_object state_object_of
  static_new_object bound arguments = do
    ce ← lift (Union.from_ptr bound)
    made ← new_object engine ce arguments
    state_object_of made

  unfoldable pub static_init_object : (bound : ℕ) → Run R (Result ℕ Error)
  unfolding Union.from_ptr init_object state_object_of
  static_init_object bound = do
    ce ← lift (Union.from_ptr bound)
    made ← init_object engine ce
    state_object_of made
