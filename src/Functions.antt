-- ===== src/Functions.antt =====
-- phper/src/functions.rs: arguments, function and method entities, and `FunctionEntry::entry`, which
-- hides the handler behind the argument infos of a `zend_function_entry`.
pub mod Invoke
pub mod Frame
pub mod Layout
mod Examples
use Prim.Native.Nat.{bit_or}
use phper.Base.{
  ℕ, suc, ◌+◌, ◌%◌, ◌^◌, Bool, true, false, Option, none, some, List, [], ◌∷◌, ◌++◌, map, Outcome,
  returns, ◌>>=◌, if◌then◌else◌, length, is_some, ensure_end_with_zero,
}

pub record Argument : Type 0 where
  pub name : List ℕ
  pub pass_by_ref : Bool
  pub required : Bool

unfoldable pub by_val : List ℕ → Outcome Argument
by_val name = do
  name ← ensure_end_with_zero name
  returns (record { name = name; pass_by_ref = false; required = true })

unfoldable pub by_ref : List ℕ → Outcome Argument
by_ref name = do
  name ← ensure_end_with_zero name
  returns (record { name = name; pass_by_ref = true; required = true })

unfoldable pub by_val_optional : List ℕ → Outcome Argument
by_val_optional name = do
  name ← ensure_end_with_zero name
  returns (record { name = name; pass_by_ref = false; required = false })

unfoldable pub by_ref_optional : List ℕ → Outcome Argument
by_ref_optional name = do
  name ← ensure_end_with_zero name
  returns (record { name = name; pass_by_ref = true; required = false })

-- `ZEND_ACC_*`.
pub record PhpFlags : Type 0 where
  pub acc_public : ℕ
  pub acc_protected : ℕ
  pub acc_private : ℕ
  pub acc_static : ℕ
  pub acc_abstract : ℕ

pub data Visibility : Type 0 where
  public : Visibility
  protected : Visibility
  private : Visibility

-- `visibility as RawVisibility`.
unfoldable pub raw_visibility : ⦃flags : PhpFlags⦄ → Visibility → ℕ
raw_visibility ⦃flags⦄ public = flags.acc_public
raw_visibility ⦃flags⦄ protected = flags.acc_protected
raw_visibility ⦃flags⦄ private = flags.acc_private

-- A `zend_internal_arg_info`, over the type of handlers: the first of an entry, one of an argument, a
-- zeroed one, and one whose bytes are the pointer to the handler (`CallableTranslator`).
pub data InternalArgInfo (H : Type 0) : Type 0 where
  begin : Bool → ℕ → InternalArgInfo H
  arg : Bool → List ℕ → InternalArgInfo H
  zeroed : InternalArgInfo H
  callable : H → InternalArgInfo H

-- `zend_function_entry`; `has_handler` says whether `handler` is `invoke`, else it is null.
pub record ZendFunctionEntry (H : Type 0) : Type 0 where
  pub fname : List ℕ
  pub has_handler : Bool
  pub arg_info : List (InternalArgInfo H)
  pub num_args : ℕ
  pub flags : ℕ

pub record FunctionEntity (H : Type 0) : Type 0 where
  pub name : List ℕ
  pub handler : H
  pub arguments : List Argument

pub record MethodEntity (H : Type 0) : Type 0 where
  pub name : List ℕ
  pub handler : Option H
  pub arguments : List Argument
  pub visibility : ℕ

-- `arguments.iter().filter(|arg| arg.required).count()`.
abbrev pub count_required : List Argument → ℕ
count_required [] = 0
count_required (a ∷ rest) = if a.required then suc (count_required rest) else count_required rest

abbrev pub arg_infos : {H : Type 0} → List Argument → List (InternalArgInfo H)
arg_infos [] = []
arg_infos (a ∷ rest) = arg a.pass_by_ref a.name ∷ arg_infos rest

abbrev handler_info : {H : Type 0} → Option H → List (InternalArgInfo H)
handler_info none = []
handler_info (some h) = callable h ∷ []

or_default : ⦃flags : PhpFlags⦄ → Option ℕ → ℕ
unfolding raw_visibility
or_default none = raw_visibility public
or_default (some v) = v

module _ {H : Type 0} ⦃flags : PhpFlags⦄ where
  unfoldable pub entry : List ℕ → List Argument → Option H → Option ℕ → ZendFunctionEntry H
  unfolding or_default
  entry name arguments handler visibility = record {
    fname = name;
    has_handler = is_some handler;
    arg_info =
        begin false (count_required arguments)
        ∷ (arg_infos arguments ++ (zeroed ∷ handler_info handler));
    num_args = length arguments % 2 ^ 32;
    flags = or_default visibility;
  }

  unfoldable pub from_function_entity : FunctionEntity H → ZendFunctionEntry H
  unfolding entry
  from_function_entity e = entry e.name e.arguments (some e.handler) none

  unfoldable pub from_method_entity : MethodEntity H → ZendFunctionEntry H
  unfolding entry
  from_method_entity e = entry e.name e.arguments e.handler (some e.visibility)

  unfoldable pub new_function : List ℕ → H → Outcome (FunctionEntity H)
  new_function name handler = do
    name ← ensure_end_with_zero name
    returns (record { name = name; handler = handler; arguments = [] })

  unfoldable pub new_method : List ℕ → Option H → Visibility → Outcome (MethodEntity H)
  unfolding raw_visibility
  new_method name handler visibility = do
    name ← ensure_end_with_zero name
    returns (record {
      name = name;
      handler = handler;
      arguments = [];
      visibility = raw_visibility visibility;
    })

  unfoldable pub set_vis_static : MethodEntity H → MethodEntity H
  set_vis_static m = record m { visibility = bit_or m.visibility flags.acc_static }

  unfoldable pub set_vis_abstract : MethodEntity H → MethodEntity H
  set_vis_abstract m = record m { visibility = bit_or m.visibility flags.acc_abstract }

module _ {H : Type 0} where
  unfoldable pub function_argument : FunctionEntity H → Argument → FunctionEntity H
  function_argument f a = record f { arguments = f.arguments ++ (a ∷ []) }

  unfoldable pub function_arguments : FunctionEntity H → List Argument → FunctionEntity H
  function_arguments f more = record f { arguments = f.arguments ++ more }

  unfoldable pub method_argument : MethodEntity H → Argument → MethodEntity H
  method_argument m a = record m { arguments = m.arguments ++ (a ∷ []) }

  unfoldable pub method_arguments : MethodEntity H → List Argument → MethodEntity H
  method_arguments m more = record m { arguments = m.arguments ++ more }
