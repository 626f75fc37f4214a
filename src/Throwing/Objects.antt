-- ===== src/Throwing/Objects.antt =====
-- What `throw` (phper/src/errors.rs) throws: the object that an error holds, or a new one that describes
-- the error.
use phper.Base.{ℕ, pos, ◌≡◌, refl, true, List, [], ◌++◌, returns, ok, bytes, decimal}
use phper.Types.{PhpTypes}
use phper.Errors.{ArgumentCountError, throw, argument_count}
use phper.Values.Union.{ZVal}
use phper.Values.From.{ZvalMacros, from_z_object, from_i64}
use phper.Engine.{Globals, Engine}
use phper.Objects.{to_ref_owned, new_object, set_property}
use phper.Calls.{throw_object_new}
use phper.Throwing.{
  Texts, from_throwable, from_result, from_result_loop, to_object, default_to_object, drop_error,
  throw_error, get_class, get_code, get_message, to_string, set_code, set_message,
}

module _ {R : Type 0} (engine : Engine R) (texts : Texts) ⦃php : PhpTypes⦄
    ⦃macros : ZvalMacros⦄ where
  -- Throwing an error that holds a `Throwable` returns and throws the same object, unconverted: its
  -- count goes up by one for the throw, and down by one for the error that is dropped.
  pub throw_error-throw :
      (o : ℕ) (g : Globals R)
      → engine.instance_of
          (engine.class_of o (engine.addref o g).rest)
          engine.throwable_ce
          (engine.addref o g).rest
        ≡ true
      → throw_error engine texts (throw (record { object = o })) g
        ≡ returns (
          tt,
          engine.throw_exception_object
              (from_z_object o)
              (engine.object_release o (engine.addref o g)),
        )
  unfolding throw_error from_throwable from_result from_result_loop to_object to_ref_owned
      drop_error throw_object_new
  throw_error-throw o g is = rw is refl

  -- The state after a property of an object was set to a value that the crate then drops.
  abbrev pub with_property : ℕ → List ℕ → ZVal → Globals R → Globals R
  with_property o name val g = engine.zval_ptr_dtor val (engine.update_property o name val g)

  -- The text of an error about too few arguments.
  abbrev pub count_text : ArgumentCountError → List ℕ
  count_text e =
      e.function_name
      ++ bytes "(): expects at least "
      ++ decimal e.expect_count
      ++ bytes " parameter(s), "
      ++ decimal e.given_count
      ++ bytes " given"

  -- The object's code is set to 0 and its message to the text.
  abbrev pub described : ℕ → List ℕ → Globals R → Globals R
  described o text g =
      let made = engine.new_string text (with_property o (bytes "code") (from_i64 (pos 0)) g) in
      with_property o (bytes "message") made.0 made.1

  -- An error about too few arguments is thrown as a new object of PHP's class for it, with code 0 and a
  -- message that names the function, the number expected and the number given, where PHP makes that
  -- object and it is a `Throwable`.
  pub throw_error-argument_count :
      (e : ArgumentCountError) (o : ℕ) (g g₁ : Globals R)
      → new_object engine engine.argument_count_error_ce [] g ≡ returns (ok o, g₁)
      → engine.instance_of
          (engine.class_of o (described o (count_text e) g₁).rest)
          engine.throwable_ce
          (described o (count_text e) g₁).rest
        ≡ true
      → throw_error engine texts (argument_count e) g
        ≡ returns
            (tt, engine.throw_exception_object (from_z_object o) (described o (count_text e) g₁))
  unfolding throw_error from_throwable from_result from_result_loop to_object default_to_object
      drop_error throw_object_new get_class get_code get_message to_string set_code set_message
      set_property
  throw_error-argument_count e o g g₁ made is = rw made (rw is refl)
