-- ===== src/Throwing/Agreement.antt =====
-- `Error` and the errors that it holds (phper/src/errors.rs).
use phper.Base.{
  ℕ, ℤ, pos, ap, sym, [], Option, ◌≡◌, ◌≢◌, refl, some, Result, ok, err, returns, arith,
}
use phper.Types.{PhpTypes}
use phper.Errors.{
  Error, io, utf8, from_bytes_with_nul, boxed, throw, class_not_found, argument_count,
  initialize_object, expect_type, not_implement_throwable,
}
use phper.Values.Union.{from_ptr}
use phper.Engine.{Globals, Engine}
use phper.Engine.Run.{Run, lift, pure, continue, ◌>>=◌, ◌>>◌}
use phper.Objects.{new_object}
use phper.Throwing.{
  Texts, get_class, get_code, get_message, to_object, default_to_object, to_string, set_code,
  set_message,
}
use phper.Throwing.Kinds.{
  provided_code, provided_message, provided_object, error_class, error_exception_class,
  type_error_class, argument_count_error_class,
}
use phper.Throwing.Dispatch.{
  error_throwable, throw_object_throwable, throw_object_class, throw_object_code,
  throw_object_message, throw_object_object,
}

-- PHP has set the pointers to its classes.
pub record ClassesAreSet {R : Type 0} (engine : Engine R) : Type 0 where
  pub error_set : engine.error_ce ≢ 0
  pub error_exception_set : engine.error_exception_ce ≢ 0
  pub type_error_set : engine.type_error_ce ≢ 0
  pub argument_count_error_set : engine.argument_count_error_ce ≢ 0
  pub class_set : (p : ℕ) (r : R) → engine.class_of p r ≢ 0

lift_ptr : {R : Type 0} (p : ℕ) (g : Globals R) → p ≢ 0 → lift (from_ptr p) g ≡ returns (p, g)
unfolding from_ptr
lift_ptr p g h = ground arith

module _ {R : Type 0} (engine : Engine R) (texts : Texts) ⦃php : PhpTypes⦄
    (set : ClassesAreSet engine) where
  class_agrees :
      (e : Error) (g : Globals R)
      → (error_throwable engine texts).get_class e g ≡ returns (get_class engine texts e g.rest, g)
  unfolding get_class error_class error_exception_class type_error_class argument_count_error_class
      throw_object_throwable throw_object_class
  class_agrees (io e) g = lift_ptr engine.error_exception_ce g set.error_exception_set
  class_agrees (utf8 e) g = lift_ptr engine.error_exception_ce g set.error_exception_set
  class_agrees (from_bytes_with_nul e) g =
      lift_ptr engine.error_exception_ce g set.error_exception_set
  class_agrees (boxed e) g = lift_ptr engine.error_exception_ce g set.error_exception_set
  class_agrees (throw e) g =
      lift_ptr (engine.class_of e.object g.rest) g (set.class_set e.object g.rest)
  class_agrees (class_not_found e) g = lift_ptr engine.error_ce g set.error_set
  class_agrees (argument_count e) g =
      lift_ptr engine.argument_count_error_ce g set.argument_count_error_set
  class_agrees (initialize_object e) g = lift_ptr engine.error_ce g set.error_set
  class_agrees (expect_type e) g = lift_ptr engine.type_error_ce g set.type_error_set
  class_agrees (not_implement_throwable e) g = lift_ptr engine.type_error_ce g set.type_error_set

  code_agrees :
      (e : Error) (g : Globals R)
      → (error_throwable engine texts).get_code e g ≡ get_code engine texts e g
  unfolding get_code provided_code throw_object_throwable throw_object_code
  code_agrees (io e) g = refl
  code_agrees (utf8 e) g = refl
  code_agrees (from_bytes_with_nul e) g = refl
  code_agrees (boxed e) g = refl
  code_agrees (throw e) g = refl
  code_agrees (class_not_found e) g = refl
  code_agrees (argument_count e) g = refl
  code_agrees (initialize_object e) g = refl
  code_agrees (expect_type e) g = refl
  code_agrees (not_implement_throwable e) g = refl

  message_agrees :
      (e : Error) (g : Globals R)
      → (error_throwable engine texts).get_message e g ≡ get_message engine texts e g
  unfolding get_message to_string provided_message throw_object_throwable throw_object_message
  message_agrees (io e) g = refl
  message_agrees (utf8 e) g = refl
  message_agrees (from_bytes_with_nul e) g = refl
  message_agrees (boxed e) g = refl
  message_agrees (throw e) g = refl
  message_agrees (class_not_found e) g = refl
  message_agrees (argument_count e) g = refl
  message_agrees (initialize_object e) g = refl
  message_agrees (expect_type e) g = refl
  message_agrees (not_implement_throwable e) g = refl

  -- What the provided `to_object` does when the object was made.
  abbrev filled : Error → Run R (Option ℤ) → Result ℕ Error → Run R (Result ℕ Error)
  filled e code (err error) = pure (err error)
  filled e code (ok object) = do
    c ← code
    set_code engine texts object c
    message ← get_message engine texts e
    set_message engine texts object message
    pure (ok object)

  provided_agrees :
      {E : Type 0} (known : E → Error) (class : E → Run R ℕ) (e : E) (g : Globals R)
      → class e g ≡ returns (get_class engine texts (known e) g.rest, g)
      → get_code engine texts (known e) ≡ pure (some (pos 0))
      → provided_object engine texts class (λ e. to_string engine texts (known e)) e g
        ≡ default_to_object engine texts (known e) g
  unfolding provided_object default_to_object provided_code provided_message get_message
  provided_agrees known class e g same plain = rw same (
      ap
        (λ c.
          continue (new_object engine (get_class engine texts (known e) g.rest) [] g)
            (filled (known e) c))
        (sym plain))

  object_agrees :
      (e : Error) (g : Globals R)
      → (error_throwable engine texts).to_object e g ≡ to_object engine texts e g
  unfolding to_object get_code throw_object_throwable throw_object_object
  object_agrees (io e) g = provided_agrees io _ e g (class_agrees (io e) g) refl
  object_agrees (utf8 e) g = provided_agrees utf8 _ e g (class_agrees (utf8 e) g) refl
  object_agrees (from_bytes_with_nul e) g =
      provided_agrees from_bytes_with_nul _ e g (class_agrees (from_bytes_with_nul e) g) refl
  object_agrees (boxed e) g = provided_agrees boxed _ e g (class_agrees (boxed e) g) refl
  object_agrees (throw e) g = refl
  object_agrees (class_not_found e) g =
      provided_agrees class_not_found _ e g (class_agrees (class_not_found e) g) refl
  object_agrees (argument_count e) g =
      provided_agrees argument_count _ e g (class_agrees (argument_count e) g) refl
  object_agrees (initialize_object e) g =
      provided_agrees initialize_object _ e g (class_agrees (initialize_object e) g) refl
  object_agrees (expect_type e) g =
      provided_agrees expect_type _ e g (class_agrees (expect_type e) g) refl
  object_agrees (not_implement_throwable e) g =
      provided_agrees not_implement_throwable _ e g (class_agrees (not_implement_throwable e) g)
        refl

  -- Each method of `Error` does what the method of the error that it holds does, where PHP has set its
  -- predefined classes.
  error_throwable_lem :
      (e : Error) (g : Globals R)
      → ((error_throwable engine texts).get_class e g
          ≡ returns (get_class engine texts e g.rest, g))
        × ((error_throwable engine texts).get_code e g ≡ get_code engine texts e g)
        × ((error_throwable engine texts).get_message e g ≡ get_message engine texts e g)
        × ((error_throwable engine texts).to_object e g ≡ to_object engine texts e g)
  error_throwable_lem e g =
      (class_agrees e g, code_agrees e g, message_agrees e g, object_agrees e g)
