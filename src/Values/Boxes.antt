-- ===== src/Values/Boxes.antt =====
-- phper/src/values.rs: `From` of values that hold others (`StateObject`, `EBox`), `convert_to_long`,
-- `convert_to_string` and `ZVal::call`.
use phper.Base.{ℕ, List, Outcome, returns, ◌>>=◌, Result, none}
use phper.Types.{PhpTypes}
use phper.Errors.{Error}
use phper.Values.Union.{ZVal}
use phper.Values.From.{ZvalMacros, from_z_object}
use phper.Alloc.{Heap, into_inner}
use phper.Engine.{Globals, Engine}
use phper.Engine.Run.{Run, call}
use phper.Calls.{call_internal}
use phper.Classes.Create.Handles.{into_z_object}

unfoldable pub from_state_object : ⦃macros : ZvalMacros⦄ → ℕ → Outcome ZVal
unfolding from_z_object into_z_object
from_state_object obj = do z ← into_z_object obj; returns (from_z_object z)

-- `From<EBox<T>>`, of a `T` that becomes a value by `into`.
unfoldable pub from_e_box : {T : Type 0} → (T → ZVal) → ℕ → Heap T → Outcome (ZVal × Heap T)
unfolding into_inner
from_e_box into t heap = do (x, heap') ← into_inner t heap; returns (into x, heap')

module _ {R : Type 0} (engine : Engine R) where
  -- `convert` is `convert_to_long` or `convert_to_string` of the engine, on the value in place.
  unfoldable pub convert_to_long :
      (convert : ZVal → Globals R → ZVal × Globals R) → ZVal → Run R ZVal
  convert_to_long convert self = call (convert self)

  unfoldable pub convert_to_string :
      (convert : ZVal → Globals R → ZVal × Globals R) → ZVal → Run R ZVal
  convert_to_string convert self = call (convert self)

  unfoldable pub val_call :
      ⦃php : PhpTypes⦄ → ⦃macros : ZvalMacros⦄ → ZVal → List ZVal → Run R (Result ZVal Error)
  unfolding call_internal
  val_call self arguments = call_internal engine self none arguments
