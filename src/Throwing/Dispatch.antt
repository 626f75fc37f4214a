-- ===== src/Throwing/Dispatch.antt =====
-- phper/src/errors.rs: `Throwable` for each type of error, and for `Error`, which holds one of them.
use phper.Base.{ℕ, ℤ, Option, some, List, Result, ok, err}
use phper.Types.{PhpTypes}
use phper.Errors.{
  Error, DynError, ExpectTypeError, ClassNotFoundError, ArgumentCountError, InitializeObjectError,
  NotImplementThrowableError, ThrowObject, Utf8Error, FromBytesWithNulError, io, utf8,
  from_bytes_with_nul, boxed, throw, class_not_found, argument_count, initialize_object,
  expect_type, not_implement_throwable,
}
use phper.Values.Union.{from_ptr}
use phper.Engine.{Engine}
use phper.Engine.Run.{Run, pure, panic, ◌>>=◌, lift, reads}
use phper.Objects.{to_ref_owned}
use phper.Calls.{throw_object_new}
use phper.Throwing.{
  Texts, inner_get_code, inner_get_message, to_string, from_throwable, from_result, to_object,
  drop_error,
}
use phper.Throwing.Kinds.{
  Throwable, provided, error_class, error_exception_class, type_error_class,
  argument_count_error_class,
}

-- A `Box` of an error does what the error does.
abbrev pub box_throwable : {R E : Type 0} → Throwable R E → Throwable R E
box_throwable t = record {
  get_class = λ e. t.get_class e;
  get_code = λ e. t.get_code e;
  get_message = λ e. t.get_message e;
  to_object = λ e. t.to_object e;
}

module _ {R : Type 0} (engine : Engine R) (texts : Texts) ⦃php : PhpTypes⦄ where
  -- `Throwable for dyn error::Error`, for errors that are known by an error of the crate.
  abbrev pub dyn_error_throwable : {E : Type 0} → (E → Error) → Throwable R E
  dyn_error_throwable known =
      provided engine texts (λ e. error_exception_class engine)
        (λ e. to_string engine texts (known e))

  abbrev pub expect_type_throwable : Throwable R ExpectTypeError
  expect_type_throwable =
      provided engine texts (λ e. type_error_class engine)
        (λ e. to_string engine texts (expect_type e))

  abbrev pub class_not_found_throwable : Throwable R ClassNotFoundError
  class_not_found_throwable =
      provided engine texts (λ e. error_class engine)
        (λ e. to_string engine texts (class_not_found e))

  abbrev pub argument_count_throwable : Throwable R ArgumentCountError
  argument_count_throwable =
      provided engine texts (λ e. argument_count_error_class engine)
        (λ e. to_string engine texts (argument_count e))

  abbrev pub initialize_object_throwable : Throwable R InitializeObjectError
  initialize_object_throwable =
      provided engine texts (λ e. error_class engine)
        (λ e. to_string engine texts (initialize_object e))

  abbrev pub not_implement_throwable_throwable : Throwable R NotImplementThrowableError
  not_implement_throwable_throwable =
      provided engine texts (λ e. type_error_class engine)
        (λ e. to_string engine texts (not_implement_throwable e))

  -- `ThrowObject` is the object that it holds.
  unfoldable pub throw_object_class : ThrowObject → Run R ℕ
  unfolding from_ptr
  throw_object_class e = do ce ← reads (engine.class_of e.object); lift (from_ptr ce)

  unfoldable pub throw_object_code : ThrowObject → Run R (Option ℤ)
  unfolding inner_get_code
  throw_object_code e = do code ← inner_get_code engine texts e; pure (some code)

  unfoldable pub throw_object_message : ThrowObject → Run R (Option (List ℕ))
  unfolding inner_get_message
  throw_object_message e = do message ← inner_get_message engine texts e; pure (some message)

  unfoldable pub throw_object_object : ThrowObject → Run R (Result ℕ Error)
  unfolding to_ref_owned
  throw_object_object e = do obj ← to_ref_owned engine e.object; pure (ok obj)

  unfoldable pub throw_object_throwable : Throwable R ThrowObject
  unfolding throw_object_class throw_object_code throw_object_message throw_object_object
  throw_object_throwable = record {
    get_class = throw_object_class;
    get_code = throw_object_code;
    get_message = throw_object_message;
    to_object = throw_object_object;
  }

  -- What an `Error` holds, with the methods of its type.
  pub record Held : Type 1 where
    pub E : Type 0
    pub methods : Throwable R E
    pub error : E

  abbrev pub held : Error → Held
  held (io e) = record { E = DynError; methods = dyn_error_throwable io; error = e }
  held (utf8 e) = record { E = Utf8Error; methods = dyn_error_throwable utf8; error = e }
  held (from_bytes_with_nul e) = record {
    E = FromBytesWithNulError;
    methods = dyn_error_throwable from_bytes_with_nul;
    error = e;
  }
  held (boxed e) = record { E = DynError; methods = dyn_error_throwable boxed; error = e }
  held (throw e) = record { E = ThrowObject; methods = throw_object_throwable; error = e }
  held (class_not_found e) = record {
    E = ClassNotFoundError;
    methods = class_not_found_throwable;
    error = e;
  }
  held (argument_count e) = record {
    E = ArgumentCountError;
    methods = argument_count_throwable;
    error = e;
  }
  held (initialize_object e) = record {
    E = InitializeObjectError;
    methods = initialize_object_throwable;
    error = e;
  }
  held (expect_type e) = record { E = ExpectTypeError; methods = expect_type_throwable; error = e }
  held (not_implement_throwable e) = record {
    E = NotImplementThrowableError;
    methods = not_implement_throwable_throwable;
    error = e;
  }

  -- The methods of `Error`: each matches, and calls the method of what is held.
  abbrev pub error_throwable : Throwable R Error
  error_throwable = record {
    get_class = λ e. (held e).methods.get_class (held e).error;
    get_code = λ e. (held e).methods.get_code (held e).error;
    get_message = λ e. (held e).methods.get_message (held e).error;
    to_object = λ e. (held e).methods.to_object (held e).error;
  }

  -- `ThrowObject::from_error`: the loop over the conversions of an error of another crate.
  unfoldable pub from_error : {E : Type 0} → (E → Error) → E → Run R ThrowObject
  unfolding from_result to_object drop_error throw_object_new
  from_error known e = do
    result ← (dyn_error_throwable known).to_object e
    obj ← from_result (to_object engine texts) (drop_error engine texts) result
    thrown ← throw_object_new engine obj
    elim thrown [ ok t ↦ pure t | err _ ↦ panic ]

  -- `Error::throw` and `Error::boxed`.
  unfoldable pub error_throw : Error → Run R Error
  unfolding from_throwable
  error_throw t = do obj ← from_throwable engine texts t; pure (throw obj)

  unfoldable pub error_boxed : DynError → Error
  error_boxed e = boxed e

-- `ThrowObject::into_inner`, and `errors::ok`.
unfoldable pub throw_object_into_inner : ThrowObject → ℕ
throw_object_into_inner e = e.object

unfoldable pub ok_result : {T : Type 0} → T → Result T Error
ok_result t = ok t
