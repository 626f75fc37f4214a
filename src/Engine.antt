-- ===== src/Engine.antt =====
-- The PHP engine as phper/src/*.rs uses it: the globals that the crate reads and writes itself, and
-- the functions that it calls, which are a parameter.
pub mod Run
use phper.Base.{ℕ, ℤ, ◌≡◌, Bool, Option, List}
use phper.Values.Union.{ZVal}

-- `EG(exception)`, the stack of `ExceptionGuard` with its top first, and all else that the engine
-- keeps.
pub record Globals (R : Type 0) : Type 0 where
  pub exception : ℕ
  pub exception_stack : List ℕ
  pub rest : R

-- The engine's functions. Each may run PHP code, which may run handlers of the extension; each
-- handler pops the guards that it pushed, so all of them leave the guards' stack as it was.
pub record Engine (R : Type 0) : Type 0 where
  -- `zend_ce_throwable` and its like: pointers to the predefined classes.
  pub throwable_ce : ℕ
  pub error_exception_ce : ℕ
  pub error_ce : ℕ
  pub exception_ce : ℕ
  pub arithmetic_error_ce : ℕ
  pub parse_error_ce : ℕ
  pub division_by_zero_error_ce : ℕ
  pub iterator_ce : ℕ
  pub array_access_ce : ℕ
  pub type_error_ce : ℕ
  pub argument_count_error_ce : ℕ
  -- The `handle` of an object, `GC_REFCOUNT`.
  pub handle : ℕ → R → ℕ
  pub refcount : ℕ → R → ℕ
  -- The `ce` of an object, `instanceof_function`, the name of a class, `zend_read_property`.
  pub class_of : ℕ → R → ℕ
  pub instance_of : ℕ → ℕ → R → Bool
  pub class_name : ℕ → R → List ℕ
  pub read_property : ℕ → List ℕ → R → ZVal
  pub string_at : ℕ → R → List ℕ
  -- `zval_ptr_dtor`, `zend_object_release`, `Z_ADDREF_P` of an object, `ZVAL_STRINGL`.
  pub zval_ptr_dtor : ZVal → Globals R → Globals R
  pub object_release : ℕ → Globals R → Globals R
  pub addref : ℕ → Globals R → Globals R
  pub new_string : List ℕ → Globals R → ZVal × Globals R
  -- `zend_update_property`, `object_init_ex`, the `get_constructor` handler of an object.
  pub update_property : ℕ → List ℕ → ZVal → Globals R → Globals R
  pub object_init_ex : ℕ → Globals R → Option ZVal × Globals R
  pub get_constructor : Option (ℕ → Globals R → ℕ × Globals R)
  pub func_val : ℕ → ZVal
  -- `call_user_function` (object, callable, arguments) and `zend_call_known_function` (function,
  -- object, class, arguments); the first value is what the return slot held before.
  pub call_user_function : Option ZVal → ZVal → List ZVal → ZVal → Globals R → ZVal × Globals R
  pub call_known_function : ℕ → ℕ → ℕ → List ZVal → ZVal → Globals R → ZVal × Globals R
  pub throw_exception_object : ZVal → Globals R → Globals R

abbrev pub SameStack : {R : Type 0} → Globals R → Globals R → Type 0
SameStack g g' = g'.exception_stack ≡ g.exception_stack

-- What the crate relies on: the guards' stack is left as it was, and an undefined value holds nothing
-- that could be dropped.
pub record IsBalanced {R : Type 0} (engine : Engine R) : Type 0 where
  pub dtor_stack : (v : ZVal) (g : Globals R) → SameStack g (engine.zval_ptr_dtor v g)
  pub release_stack : (p : ℕ) (g : Globals R) → SameStack g (engine.object_release p g)
  pub dtor_undef : (v : ZVal) (g : Globals R) → v.type_info ≡ 0 → engine.zval_ptr_dtor v g ≡ g
  pub addref_stack : (p : ℕ) (g : Globals R) → SameStack g (engine.addref p g)
