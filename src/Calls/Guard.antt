-- ===== src/Calls/Guard.antt =====
-- `call_raw_common` (phper/src/functions.rs) gives the callee's exception as an error and leaves the
-- caller's pending exception as it was.
use phper.Base.{
  ◌≡◌, refl, returns, Result, ok, err, arith, ◌==◌, if◌then◌else◌, Bool-cases, inl, inr, ◌∙◌,
}
use phper.Types
use phper.Types.{PhpTypes}
use phper.Errors.{Error, throw, not_implement_throwable, not_implement_throwable_error}
use phper.Values.Union.{ZVal, get_type_info}
use phper.Values.From.{from_unit, default}
use phper.Engine.{Globals, Engine, IsBalanced, SameStack}
use phper.Calls.{guard_default, guard_drop, null_if_undef, take_exception, call_raw_common}

module _ {R : Type 0} (engine : Engine R) ⦃php : PhpTypes⦄ where
  -- What the callee left: its return value, null for an undefined one, or else its exception, as the
  -- owned object of the error if that is a `Throwable`.
  abbrev pub outcome_of : ZVal → Globals R → Result ZVal Error
  outcome_of ret g =
      if g.exception == 0
      then ok (if Types.is_undef (get_type_info ret) then from_unit else ret)
      else if engine.instance_of (engine.class_of g.exception g.rest) engine.throwable_ce g.rest
      then err (throw (record { object = g.exception }))
      else err (not_implement_throwable not_implement_throwable_error)

module _ {R : Type 0} where
  restored : Globals R → Globals R → Globals R
  restored g after = record after { exception = g.exception; exception_stack = g.exception_stack }

  guard_drop_lem :
      (g after : Globals R)
      → SameStack (guard_default g) after
      → guard_drop after ≡ returns (tt, restored g after)
  unfolding guard_default guard_drop restored
  guard_drop_lem g after same = rw same

module _ {R : Type 0} (engine : Engine R) ⦃php : PhpTypes⦄ (balanced : IsBalanced engine) where
  null_if_undef_lem :
      (ret : ZVal) (g : Globals R)
      → null_if_undef engine ret g
        ≡ returns ((if Types.is_undef (get_type_info ret) then from_unit else ret), g)
  unfolding null_if_undef get_type_info Types.is_undef
  null_if_undef_lem ret g = ground (arith, balanced.dtor_undef ret g, php.undef_eq)

  -- The exception is taken and the guards' stack is left alone.
  take_exception_lem :
      (ret : ZVal) (g : Globals R)
      → (g' : Globals R) × (take_exception engine ret g.exception g
          ≡ returns (
            (if engine.instance_of (engine.class_of g.exception g.rest) engine.throwable_ce g.rest
                then err (throw (record { object = g.exception }))
                else err (not_implement_throwable not_implement_throwable_error)),
            g',
          ))
        × SameStack g g'
  unfolding take_exception
  take_exception_lem ret g =
      let cleared : Globals R = record g { exception = 0 } in
      elim (Bool-cases
        (engine.instance_of (engine.class_of g.exception g.rest) engine.throwable_ce g.rest)) [
          | inl is ↦ (engine.zval_ptr_dtor ret cleared, rw is refl, balanced.dtor_stack ret cleared)
          | inr is_not ↦ (
            engine.zval_ptr_dtor ret (engine.object_release g.exception cleared),
            rw is_not refl,
            balanced.dtor_stack ret (engine.object_release g.exception cleared)
                ∙ balanced.release_stack g.exception cleared,
          )
        ]

module _ {R : Type 0} (engine : Engine R) ⦃php : PhpTypes⦄
    (call_fn : ZVal → Globals R → ZVal × Globals R) (g : Globals R) where
  abbrev after : ZVal × Globals R
  after = call_fn default (guard_default g)

  -- If the engine and the closure leave the guards' stack as it was, `call_raw_common` returns. Its
  -- result is the value that the callee returned, null for an undefined one; or, if the callee left an
  -- exception, the error that holds it, or the error about an object that is no `Throwable`. Afterwards
  -- the pending exception and the guards' stack are what they were before the call.
  pub call_raw_common_lem :
      IsBalanced engine
      → SameStack (guard_default g) (call_fn default (guard_default g)).1
      → (g' : Globals R) × (call_raw_common engine call_fn g
          ≡ returns (outcome_of engine after.0 after.1, g'))
        × (g'.exception ≡ g.exception)
        × (g'.exception_stack ≡ g.exception_stack)
  unfolding call_raw_common restored
  call_raw_common_lem balanced same = elim (Bool-cases (after.1.exception == 0)) [
    | inl clear ↦ (
      restored g after.1,
      rw (null_if_undef_lem engine balanced) (rw clear (rw (guard_drop_lem g after.1 same) refl)),
      refl,
      refl,
    )
    | inr left ↦
        let ret = if Types.is_undef (get_type_info after.0) then from_unit else after.0 in
        let (g', taken, same') = take_exception_lem engine balanced ret after.1 in
        (
          restored g g',
          rw (null_if_undef_lem engine balanced)
              (rw left (rw taken (rw (guard_drop_lem g g' (same' ∙ same)) refl))),
          refl,
          refl,
        )
  ]
