-- ===== src/Samples.antt =====
-- Concrete instances of what the other modules take as a parameter: the tags of PHP 8, the type words
-- of its counted values, a hash table that is a list of entries, and an engine that keeps nothing.
pub mod Hash
pub mod Cells
pub mod Strings
pub mod Arrays
pub mod Values
use phper.Base.{
  ℕ, ℤ, ◌*◌, ◌+◌, ◌≡◌, refl, Bool, true, false, Option, none, some, List, [], arith, bytes, ◌==◌,
}
use phper.Types.{PhpTypes}
use phper.Values.Union.{ZVal, unset, obj, func}
use phper.Values.From.{ZvalMacros}
use phper.Engine.{Globals, Engine, IsBalanced}
use phper.Functions.{PhpFlags}
use phper.Functions.Invoke.{BuildProfile}
use phper.Throwing.{Texts}

abbrev pub php8 : PhpTypes
php8 = record {
  undef_tag = 0;
  null_tag = 1;
  false_tag = 2;
  true_tag = 3;
  long_tag = 4;
  double_tag = 5;
  string_tag = 6;
  array_tag = 7;
  object_tag = 8;
  resource_tag = 9;
  reference_tag = 10;
  bool_tag = 17;
  flags_shift = 8;
  undef_eq = refl;
  null_eq = refl;
  false_eq = refl;
  true_eq = refl;
  long_eq = refl;
  double_eq = refl;
  string_eq = refl;
  array_eq = refl;
  object_eq = refl;
  resource_eq = refl;
  reference_eq = refl;
  bool_gt = omega arith;
  bool_lt = omega arith;
  shift_eq = refl;
}

-- Refcounted strings, arrays and objects; the flags stand in the second byte.
abbrev pub macros8 : ZvalMacros
macros8 = record {
  str_info = λ p. 6 + 256 * 1;
  arr_info = λ p. 7 + 256 * 3;
  obj_info = λ p. 8 + 256 * 3;
  str_info_tag = λ p. refl;
  arr_info_tag = λ p. refl;
  obj_info_tag = λ p. refl;
}

abbrev pub build8 : BuildProfile
build8 = record { overflow_checks = true }

abbrev pub flags8 : PhpFlags
flags8 = record {
  acc_public = 1;
  acc_protected = 2;
  acc_private = 4;
  acc_static = 16;
  acc_abstract = 64;
}

abbrev pub no_texts : Texts
no_texts = record {
  utf8_text = λ e. bytes "invalid utf-8";
  nul_text = λ e. bytes "interior nul byte";
  type_by_const = λ t. bytes "mixed";
}

-- Every object is of a class whose address is its own plus 100; the one at 9 is no `Throwable`.
abbrev pub engine8 : Engine (Unit {0})
engine8 = record {
  throwable_ce = 1;
  error_exception_ce = 2;
  error_ce = 3;
  exception_ce = 6;
  arithmetic_error_ce = 7;
  parse_error_ce = 8;
  division_by_zero_error_ce = 9;
  iterator_ce = 10;
  array_access_ce = 11;
  handle = λ p r. p;
  refcount = λ p r. 1;
  type_error_ce = 4;
  argument_count_error_ce = 5;
  class_of = λ p r. p + 100;
  instance_of = λ ce of r. elim (ce == 109) [ true ↦ false | false ↦ true ];
  class_name = λ ce r. bytes "Foo";
  read_property = λ p name r. record { type_info = 1; value = unset };
  string_at = λ p r. [];
  zval_ptr_dtor = λ v g. g;
  object_release = λ p g. g;
  addref = λ p g. g;
  new_string = λ s g. (record { type_info = 1; value = unset }, g);
  update_property = λ p name v g. g;
  object_init_ex = λ ce g. (some (record { type_info = 8; value = obj 50 }), g);
  get_constructor = some (λ p g. (77, g));
  func_val = λ f. record { type_info = 17; value = func f };
  call_user_function = λ o f args v g. (v, g);
  call_known_function = λ f o ce args v g. (v, g);
  throw_exception_object = λ v g. record g { exception = 60 };
}

abbrev pub engine8-IsBalanced : IsBalanced engine8
engine8-IsBalanced = record {
  dtor_stack = λ v g. refl;
  release_stack = λ p g. refl;
  dtor_undef = λ v g h. refl;
  addref_stack = λ p g. refl;
}

-- Nothing pends.
abbrev pub calm : Globals (Unit {0})
calm = record { exception = 0; exception_stack = []; rest = tt }
