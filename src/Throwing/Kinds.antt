-- ===== src/Throwing/Kinds.antt =====
-- phper/src/errors.rs: the trait `Throwable` and its implementations, one for each type of error, and
-- PHP's predefined classes. `Error` hands each call on to the error that it holds.
use phper.Base.{ℕ, ℤ, pos, Option, some, List, [], Result, ok, err}
use phper.Types.{PhpTypes}
use phper.Errors.{Error}
use phper.Values.Union.{from_ptr}
use phper.Engine.{Engine}
use phper.Engine.Run.{Run, pure, ◌>>=◌, ◌>>◌, lift}
use phper.Objects.{new_object}
use phper.Throwing.{Texts, set_code, set_message}

-- The methods of the trait, for a type of errors.
pub record Throwable (R E : Type 0) : Type 0 where
  pub get_class : E → Run R ℕ
  pub get_code : E → Run R (Option ℤ)
  pub get_message : E → Run R (Option (List ℕ))
  pub to_object : E → Run R (Result ℕ Error)

module _ {R : Type 0} (engine : Engine R) where
  unfoldable pub throwable_class : Run R ℕ
  unfolding from_ptr
  throwable_class = lift (from_ptr engine.throwable_ce)

  unfoldable pub exception_class : Run R ℕ
  unfolding from_ptr
  exception_class = lift (from_ptr engine.exception_ce)

  unfoldable pub error_class : Run R ℕ
  unfolding from_ptr
  error_class = lift (from_ptr engine.error_ce)

  unfoldable pub error_exception_class : Run R ℕ
  unfolding from_ptr
  error_exception_class = lift (from_ptr engine.error_exception_ce)

  unfoldable pub type_error_class : Run R ℕ
  unfolding from_ptr
  type_error_class = lift (from_ptr engine.type_error_ce)

  unfoldable pub argument_count_error_class : Run R ℕ
  unfolding from_ptr
  argument_count_error_class = lift (from_ptr engine.argument_count_error_ce)

  unfoldable pub arithmetic_error_class : Run R ℕ
  unfolding from_ptr
  arithmetic_error_class = lift (from_ptr engine.arithmetic_error_ce)

  unfoldable pub parse_error_class : Run R ℕ
  unfolding from_ptr
  parse_error_class = lift (from_ptr engine.parse_error_ce)

  unfoldable pub division_by_zero_error : Run R ℕ
  unfolding from_ptr
  division_by_zero_error = lift (from_ptr engine.division_by_zero_error_ce)

  -- phper/src/classes.rs.
  unfoldable pub iterator_class : Run R ℕ
  unfolding from_ptr
  iterator_class = lift (from_ptr engine.iterator_ce)

  unfoldable pub array_access_class : Run R ℕ
  unfolding from_ptr
  array_access_class = lift (from_ptr engine.array_access_ce)

-- What the trait provides to a type with a class and a `Display`.
module _ {R E : Type 0} (engine : Engine R) (texts : Texts) ⦃php : PhpTypes⦄
    (get_class : E → Run R ℕ) (display : E → Run R (List ℕ)) where
  unfoldable pub provided_code : E → Run R (Option ℤ)
  provided_code e = pure (some (pos 0))

  unfoldable pub provided_message : E → Run R (Option (List ℕ))
  provided_message e = do message ← display e; pure (some message)

  unfoldable pub provided_object : E → Run R (Result ℕ Error)
  unfolding new_object provided_code provided_message set_code set_message
  provided_object e = do
    ce ← get_class e
    made ← new_object engine ce []
    elim made [
      | err error ↦ pure (err error)
      | ok object ↦ do
        code ← provided_code e
        set_code engine texts object code
        message ← provided_message e
        set_message engine texts object message
        pure (ok object)
    ]

  abbrev pub provided : Throwable R E
  provided = record {
    get_class = get_class;
    get_code = provided_code;
    get_message = provided_message;
    to_object = provided_object;
  }
