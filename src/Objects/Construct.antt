-- ===== src/Objects/Construct.antt =====
-- What `ClassEntry::new_object` (phper/src/classes.rs) does when the constructor returns and when it
-- throws.
use phper.Base.{
  ℕ, ◌<◌, ◌≡◌, ◌≢◌, refl, ap, ◌∙◌, some, List, Outcome, returns, Result, ok, err, arith, ◌==◌,
  false,
}
use phper.Types
use phper.Types.{PhpTypes}
use phper.Errors.{Error}
use phper.Values.Union.{ZVal, obj, func, from_ptr, z_obj, z_func, get_type_info}
use phper.Values.From.{default}
use phper.Engine.{Globals, Engine, IsBalanced, SameStack}
use phper.Engine.Run.{pure, ◌>>◌, step, continue, or_return}
use phper.Calls.{guard_default, call_raw_common, z_func_call}
use phper.Calls.Guard.{outcome_of, call_raw_common_lem}
use phper.Objects.{
  new_object, init_object, init_object_of, call_construct, call_construct_with, constructor_val,
  run_constructor,
}

-- The exception and the guards' stack are those of the first state.
abbrev pub SameExceptions : {R : Type 0} → Globals R → Globals R → Type 0
SameExceptions g g' = (g'.exception ≡ g.exception) × (g'.exception_stack ≡ g.exception_stack)

module _ {R : Type 0} (engine : Engine R) ⦃php : PhpTypes⦄ where
  -- A call of the constructor on an object, and what is made of its outcome.
  abbrev pub constructor_call : (f o : ℕ) → List ZVal → ZVal → Globals R → ZVal × Globals R
  constructor_call f o arguments ret g =
      engine.call_known_function f o (engine.class_of o g.rest) arguments ret g

  abbrev pub constructed : ℕ → Result ZVal Error → Globals R → Outcome (Result ℕ Error × Globals R)
  constructed o (ok ret) g = returns (ok o, engine.zval_ptr_dtor ret g)
  constructed o (err e) g = returns (err e, engine.object_release o g)

module _ {R : Type 0} (engine : Engine R) ⦃php : PhpTypes⦄ (ce o f t : ℕ) (arguments : List ZVal)
    (get : ℕ → Globals R → ℕ × Globals R) (val : ZVal) (g g₁ g₂ : Globals R) where
  init_lem :
      engine.object_init_ex ce g ≡ (some val, g₁)
      → val.value ≡ obj o
      → o ≢ 0
      → init_object engine ce g ≡ returns (ok o, g₁)
  unfolding init_object init_object_of z_obj from_ptr
  init_lem made is_object nonzero =
      let nonzero' : (o == 0) ≡ false = ground arith in rw made (rw is_object (rw nonzero' refl))

  constructor_val_lem :
      get o (guard_default g₁) ≡ (f, g₂)
      → f ≢ 0
      → constructor_val engine get o default (guard_default g₁) ≡ (engine.func_val f, g₂)
  unfolding constructor_val
  constructor_val_lem looked_up nonzero =
      let nonzero' : (f == 0) ≡ false = ground arith in rw looked_up (rw nonzero' refl)

  found_lem :
      IsBalanced engine
      → get o (guard_default g₁) ≡ (f, g₂)
      → SameStack (guard_default g₁) g₂
      → g₂.exception ≡ 0
      → f ≢ 0
      → engine.func_val f ≡ record { type_info = t; value = func f }
      → 1 < t
      → (g₃ : Globals R) × (call_raw_common engine (constructor_val engine get o) g₁
          ≡ returns (ok (record { type_info = t; value = func f }), g₃))
        × SameExceptions g₁ g₃
  unfolding Types.is_undef get_type_info
  found_lem balanced looked_up same clear nonzero is_func large =
      let cv = constructor_val_lem looked_up nonzero in
      let same' : SameStack (guard_default g₁)
          (constructor_val engine get o default (guard_default g₁)).1 =
        rw cv same in
      let (g₃, called, kept, kept') =
        call_raw_common_lem engine (constructor_val engine get o) g₁ balanced same' in
      let defined : (t == php.undef_tag) ≡ false = ground (arith, php.undef_eq) in
      (g₃, called ∙ rw cv (rw (clear, is_func) (rw defined refl)), (kept, kept'))

  -- What is made of the outcome of the constructor's call.
  abbrev ran : Result ZVal Error → Globals R → Outcome (Result (Unit {0}) Error × Globals R)
  ran (ok ret) g = returns (ok tt, engine.zval_ptr_dtor ret g)
  ran (err e) g = returns (err e, g)

  or_return-ran :
      (r : Result ZVal Error) (g : Globals R)
      → or_return r (λ ret. step (engine.zval_ptr_dtor ret) >> pure (ok tt)) g ≡ ran r g
  or_return-ran (ok ret) g = refl
  or_return-ran (err e) g = refl

  run_lem :
      (before after : Globals R) (r : Result ZVal Error)
      → f ≢ 0
      → 1 < t
      → z_func_call engine f (some o) arguments before ≡ returns (r, after)
      → run_constructor engine o (record { type_info = t; value = func f }) arguments before
        ≡ ran r after
  unfolding run_constructor Types.is_null get_type_info z_func from_ptr
  run_lem before after r nonzero large called =
      let not_null : (t == php.null_tag) ≡ false = ground (arith, php.null_eq) in
      let nonzero' : (f == 0) ≡ false = ground arith in
      rw not_null (rw nonzero' (rw called (or_return-ran r after)))

  with_constructor :
      {after : Globals R} {end : Outcome (Result (Unit {0}) Error × Globals R)}
      → call_raw_common engine (constructor_val engine get o) g₁
        ≡ returns (ok (record { type_info = t; value = func f }), after)
      → run_constructor engine o (record { type_info = t; value = func f }) arguments after ≡ end
      → call_construct_with engine (some get) o arguments g₁ ≡ end
  unfolding call_construct_with
  with_constructor looked_up runs = rw looked_up runs

  ran-constructed :
      (r : Result ZVal Error) (g : Globals R)
      → continue (ran r g) (λ done. elim done [
        | ok _ ↦ pure (ok o)
        | err e ↦ step (engine.object_release o) >> pure (err e)
      ])
        ≡ constructed engine o r g
  ran-constructed (ok ret) g = refl
  ran-constructed (err e) g = refl

  -- Where PHP makes an object of the class and finds a constructor for it without an exception, and the
  -- engine, the lookup and the constructor leave the guards' stack as it was, `new_object` returns. If
  -- the constructor returns, the result is the object, and what the constructor returned is dropped; if
  -- it leaves an exception, the result is that exception as an error, and the object is released. In
  -- both cases the caller's pending exception and the guards' stack are, up to that drop or release, as
  -- they were when the object was made.
  pub new_object-constructed :
      IsBalanced engine
      → engine.object_init_ex ce g ≡ (some val, g₁)
      → val.value ≡ obj o
      → o ≢ 0
      → engine.get_constructor ≡ some get
      → get o (guard_default g₁) ≡ (f, g₂)
      → SameStack (guard_default g₁) g₂
      → g₂.exception ≡ 0
      → f ≢ 0
      → engine.func_val f ≡ record { type_info = t; value = func f }
      → 1 < t
      → ((g' : Globals R)
          → SameStack
              (guard_default g')
              (constructor_call engine f o arguments default (guard_default g')).1)
      → (g₃ g₄ : Globals R) × SameExceptions g₁ g₃
        × SameExceptions g₁ g₄
        × (new_object engine ce arguments g
            ≡ constructed engine o
                (outcome_of engine
                  (constructor_call engine f o arguments default (guard_default g₃)).0
                  (constructor_call engine f o arguments default (guard_default g₃)).1)
                g₄)
  unfolding new_object call_construct z_func_call
  new_object-constructed balanced made is_object nonzero has looked_up same clear found is_func
        large keeps =
      let (g₃, lookup_done, kept₃) = found_lem balanced looked_up same clear found is_func large in
      let (g₄, called, e₄, s₄) =
        call_raw_common_lem engine (constructor_call engine f o arguments) g₃ balanced (keeps g₃) in
      let r =
        outcome_of engine (constructor_call engine f o arguments default (guard_default g₃)).0
          (constructor_call engine f o arguments default (guard_default g₃)).1 in
      let constructs : call_construct engine o arguments g₁ ≡ ran r g₄ =
        ap (λ x. call_construct_with engine x o arguments g₁) has
        ∙ with_constructor lookup_done (run_lem g₃ g₄ r found large called) in
      (
        g₃,
        g₄,
        kept₃,
        (e₄ ∙ kept₃.0, s₄ ∙ kept₃.1),
        rw (init_lem made is_object nonzero) (rw constructs (ran-constructed r g₄)),
      )
