-- ===== src/Throwing.antt =====
-- phper/src/errors.rs: the trait `Throwable` for `Error`, `ThrowObject::from_result` and `throw`.
-- `Display` of the standard library's errors is a parameter. PHP is not 7.0.
pub mod Retry
pub mod Kinds
pub mod Dispatch
pub mod Agreement
pub mod Objects
mod Examples
use phper.Base.{
  ℕ, ℤ, pos, zero, suc, ◌+◌, Bool, true, false, Option, none, some, List, [], ◌++◌, Outcome,
  returns, panics, Result, ok, err, is_utf8, decimal, bytes, ltb, unwrap, if◌then◌else◌,
}
use phper.Types
use phper.Types.{PhpTypes, TypeInfo, get_base_type_name}
use phper.Errors.{
  Error, DynError, Utf8Error, FromBytesWithNulError, ExpectTypeError, ClassNotFoundError,
  ArgumentCountError, InitializeObjectError, NotImplementThrowableError, ThrowObject, io, utf8,
  from_bytes_with_nul, boxed, throw, class_not_found, argument_count, initialize_object,
  expect_type, not_implement_throwable,
}
use phper.Values.Union.{ZVal, from_ptr, z_str}
use phper.Values.From.{ZvalMacros, from_i64, from_z_object}
use phper.Values.Casts.{as_long, as_z_str}
use phper.Strings.{to_str}
use phper.Engine.{Globals, Engine}
use phper.Engine.Run.{Run, pure, panic, ◌>>=◌, ◌>>◌, step, call, reads, lift}
use phper.Calls.{throw_object_new}
use phper.Objects.{new_object, get_property, set_property, to_ref_owned}

-- `Display` of `Utf8Error` and `FromBytesWithNulError`, and `zend_get_type_by_const`.
pub record Texts : Type 0 where
  pub utf8_text : Utf8Error → List ℕ
  pub nul_text : FromBytesWithNulError → List ℕ
  pub type_by_const : ℕ → List ℕ

abbrev or_panic : {R A : Type 0} → Option A → Run R A
or_panic none = panic
or_panic (some a) = pure a

-- `ThrowObject::from_result`: the loop with its counter `i`, over any error type, the conversion
-- `to_object` of its errors and their drop. One round more than the counter allows is enough fuel.
module _ {R E : Type 0} (to_object : E → Run R (Result ℕ E))
    (drop : E → Globals R → Globals R) where
  from_result_loop : ℕ → ℕ → Result ℕ E → Run R ℕ
  from_result_loop fuel i (ok o) = pure o
  from_result_loop zero i (err e) = panic
  from_result_loop (suc fuel) i (err e) = elim (ltb 50 i) [
    | true ↦ panic
    | false ↦ do result ← to_object e; step (drop e); from_result_loop fuel (i + 1) result
  ]

  unfoldable pub from_result : Result ℕ E → Run R ℕ
  unfolding from_result_loop
  from_result result = from_result_loop 52 0 result

module _ {R : Type 0} (engine : Engine R) (texts : Texts) ⦃php : PhpTypes⦄ where
  unfoldable pub get_class : Error → R → ℕ
  get_class (io e) r = engine.error_exception_ce
  get_class (utf8 e) r = engine.error_exception_ce
  get_class (from_bytes_with_nul e) r = engine.error_exception_ce
  get_class (boxed e) r = engine.error_exception_ce
  get_class (throw e) r = engine.class_of e.object r
  get_class (class_not_found e) r = engine.error_ce
  get_class (argument_count e) r = engine.argument_count_error_ce
  get_class (initialize_object e) r = engine.error_ce
  get_class (expect_type e) r = engine.type_error_ce
  get_class (not_implement_throwable e) r = engine.type_error_ce

  -- `ThrowObject::inner_get_code`.
  inner_get_code : ThrowObject → Run R ℤ
  unfolding get_property
  inner_get_code e = do
    val ← get_property engine e.object (bytes "code")
    code ← lift (as_long val)
    or_panic code

  -- `ThrowObject::inner_get_message`: a message that is not UTF-8 reads as empty.
  inner_get_message : ThrowObject → Run R (List ℕ)
  unfolding get_property to_str
  inner_get_message e = do
    val ← get_property engine e.object (bytes "message")
    str ← lift (as_z_str val)
    str ← or_panic str
    text ← reads (engine.string_at str)
    text ← lift (to_str text)
    pure (elim text [ ok s ↦ s | err _ ↦ bytes "" ])

  unfoldable pub get_code : Error → Run R (Option ℤ)
  unfolding inner_get_code
  get_code (throw e) = do code ← inner_get_code e; pure (some code)
  get_code _ = pure (some (pos 0))

  -- `Display`; the texts of `thiserror` are written out.
  type_name : TypeInfo → List ℕ
  type_name t =
      let name = get_base_type_name texts.type_by_const t in
      if is_utf8 name then name else bytes "unknown"

  unfoldable pub to_string : Error → Run R (List ℕ)
  unfolding inner_get_message type_name
  to_string (io e) = pure e.text
  to_string (utf8 e) = pure (texts.utf8_text e)
  to_string (from_bytes_with_nul e) = pure (texts.nul_text e)
  to_string (boxed e) = pure e.text
  to_string (throw e) = inner_get_message e
  to_string (class_not_found e) = pure (bytes "Class '" ++ e.class_name ++ bytes "' not found")
  to_string (argument_count e) = pure (
      e.function_name
      ++ bytes "(): expects at least "
      ++ decimal e.expect_count
      ++ bytes " parameter(s), "
      ++ decimal e.given_count
      ++ bytes " given")
  to_string (initialize_object e) = pure (bytes "Cannot instantiate class " ++ e.class_name)
  to_string (expect_type e) = pure (
      bytes "type error: must be of type "
      ++ type_name e.expect_type
      ++ bytes ", "
      ++ type_name e.actual_type
      ++ bytes " given")
  to_string (not_implement_throwable e) =
      pure (bytes "Cannot throw objects that do not implement Throwable")

  unfoldable pub get_message : Error → Run R (Option (List ℕ))
  unfolding to_string
  get_message e = do message ← to_string e; pure (some message)

  set_code : ℕ → Option ℤ → Run R (Unit {0})
  unfolding set_property from_i64
  set_code object none = pure tt
  set_code object (some code) = set_property engine object (bytes "code") (from_i64 code)

  set_message : ℕ → Option (List ℕ) → Run R (Unit {0})
  unfolding set_property
  set_message object none = pure tt
  set_message object (some message) = do
    val ← call (engine.new_string message)
    set_property engine object (bytes "message") val

  -- `to_object` as the trait provides it.
  default_to_object : Error → Run R (Result ℕ Error)
  unfolding new_object get_code get_message set_code set_message get_class
  default_to_object e = do
    ce ← reads (get_class e)
    made ← new_object engine ce []
    elim made [
      | err error ↦ pure (err error)
      | ok object ↦ do
        code ← get_code e
        set_code object code
        message ← get_message e
        set_message object message
        pure (ok object)
    ]

  unfoldable pub to_object : Error → Run R (Result ℕ Error)
  unfolding default_to_object to_ref_owned
  to_object (throw e) = do obj ← to_ref_owned engine e.object; pure (ok obj)
  to_object e = default_to_object e

  -- The drop of an error: `Throw` gives its reference back.
  unfoldable pub drop_error : Error → Globals R → Globals R
  drop_error (throw e) g = engine.object_release e.object g
  drop_error _ g = g

  -- `ThrowObject::from_throwable`: what the loop ends with must be a `Throwable`.
  unfoldable pub from_throwable : Error → Run R ThrowObject
  unfolding from_result to_object throw_object_new drop_error
  from_throwable e = do
    result ← to_object e
    obj ← from_result to_object drop_error result
    thrown ← throw_object_new engine obj
    t ← elim thrown [ ok t ↦ pure t | err _ ↦ panic ]
    step (drop_error e)
    pure t

  -- `throw`: the object's reference moves to the engine.
  unfoldable pub throw_error : ⦃macros : ZvalMacros⦄ → Error → Run R (Unit {0})
  unfolding from_throwable from_z_object
  throw_error e = do
    t ← from_throwable e
    step (engine.throw_exception_object (from_z_object t.object))
