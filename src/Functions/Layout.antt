-- ===== src/Functions/Layout.antt =====
-- `invoke` (phper/src/functions.rs) finds the handler that `FunctionEntry::entry` hid.
use phper.Base.{
  ℕ, suc, ◌+◌, ◌^◌, ◌<◌, ◌≡◌, refl, ap, ◌∙◌, Option, some, returns, List, [], ◌∷◌, ◌++◌, arith, ltb,
  if◌then◌else◌, length, get_elem?, get_elem?-append,
}
use phper.Types.{PhpTypes}
use phper.Values.From.{ZvalMacros}
use phper.Engine.{Globals, Engine}
use phper.Throwing.{Texts}
use phper.Functions.{
  PhpFlags, Argument, InternalArgInfo, begin, zeroed, callable, ZendFunctionEntry, count_required,
  arg_infos, entry,
}
use phper.Functions.Invoke.{
  BuildProfile, add_one, Callable, ZendFunction, ExecuteData, num_args, call_handler, reject,
  invoke,
}

abbrev pub required_of : {H : Type 0} → List (InternalArgInfo H) → ℕ
required_of (begin _ n ∷ _) = n
required_of _ = 0

-- What PHP's registration makes of an entry: the argument infos without the first, whose number of
-- required arguments it keeps.
pub record IsRegistered {H : Type 0} (f : ZendFunction H) (e : ZendFunctionEntry H) : Type 0 where
  pub arg_info : (i : ℕ) → f.arg_info i ≡ get_elem? e.arg_info (i + 1)
  pub num_args : f.num_args ≡ e.num_args
  pub required : f.required_num_args ≡ required_of e.arg_info

module _ (H : Type 0) where
  length-arg_infos :
      (arguments : List Argument) → length (arg_infos {H = H} arguments) ≡ length arguments
  length-arg_infos [] = refl
  length-arg_infos (a ∷ rest) = ap suc (length-arg_infos rest)

module _ {H : Type 0} where
  -- The handler stands behind the zeroed info that follows the arguments.
  hidden_handler :
      (b : InternalArgInfo H) (arguments : List Argument) (h : H)
      → get_elem?
          (b ∷ (arg_infos arguments ++ (zeroed ∷ callable h ∷ [])))
          (length arguments + 1 + 1)
        ≡ some (callable h)
  hidden_handler b arguments h =
      let at : length arguments + 1 + 1 ≡ suc (length (arg_infos {H = H} arguments) + 1) =
        omega (arith, length-arg_infos H arguments) in
      rw at (get_elem?-append (arg_infos arguments) (zeroed ∷ callable h ∷ []) 1)

add_one_lem : ⦃build : BuildProfile⦄ → (n : ℕ) → n + 1 < 2 ^ 32 → add_one n ≡ returns (n + 1)
unfolding add_one
add_one_lem n h = ground (arith, h)

module _ {R : Type 0} (engine : Engine R) (texts : Texts) ⦃php : PhpTypes⦄ ⦃macros : ZvalMacros⦄
    ⦃flags : PhpFlags⦄ ⦃build : BuildProfile⦄ where
  -- Called for a function that PHP registered from the entry, with fewer than 2^32 - 1 arguments declared,
  -- `invoke` finds the handler that the entry hid behind them: with fewer arguments given than are
  -- required it rejects the call, and else it does what the handler does.
  pub invoke-entry :
      (name : List ℕ) (arguments : List Argument) (h : Callable R) (vis : Option ℕ)
      (x : ExecuteData (Callable R)) (g : Globals R)
      → IsRegistered x.func (entry name arguments (some h) vis)
      → length arguments + 1 < 2 ^ 32
      → invoke engine texts x g
        ≡ (if ltb (num_args x) (count_required arguments)
              then reject engine texts x
              else call_handler engine texts h x)
            g
  unfolding invoke entry
  invoke-entry name arguments h vis x g reg fits =
      let count : x.func.num_args ≡ length arguments = omega (arith, reg.num_args) in
      let found : x.func.arg_info (x.func.num_args + 1) ≡ some (callable h) =
        reg.arg_info (x.func.num_args + 1) ∙ rw count (hidden_handler _ arguments h) in
      let sum : add_one x.func.num_args ≡ returns (x.func.num_args + 1) =
        add_one_lem x.func.num_args (omega arith) in
      rw (sum, invoke) (rw (found, reg.required) refl)
