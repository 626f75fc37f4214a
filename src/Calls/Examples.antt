-- ===== src/Calls/Examples.antt =====
-- A callee that returns and one that leaves an exception behind, in phper/src/functions.rs.
use phper.Base.{◌≡◌, refl, [], ◌∷◌, returns, err}
use phper.Errors.{throw}
use phper.Values.Union.{ZVal}
use phper.Engine.{Globals}
use phper.Calls.{call_raw_common}
use phper.Calls.Guard.{call_raw_common_lem}
use phper.Samples.{php8, engine8, engine8-IsBalanced}

-- An exception is pending, and one more is guarded.
abbrev busy : Globals (Unit {0})
busy = record { exception = 30; exception_stack = 20 ∷ []; rest = tt }

abbrev throws : ZVal → Globals (Unit {0}) → ZVal × Globals (Unit {0})
throws ret g = (ret, record g { exception = 8 })

call_raw_common_lem_example :
    (g' : Globals (Unit {0})) × (call_raw_common engine8 ⦃php = php8⦄ throws busy
      ≡ returns (err (throw (record { object = 8 })), g'))
    × (g'.exception ≡ 30)
    × (g'.exception_stack ≡ 20 ∷ [])
call_raw_common_lem_example =
    call_raw_common_lem engine8 ⦃php = php8⦄ throws busy engine8-IsBalanced refl
