-- ===== src/Classes/Create/Places.antt =====
-- The places of states (phper/src/objects.rs, `StateObj`), as lemmas on the steps that read them.
use phper.Base.{ℕ, ◌+◌, ◌-◌, ◌≡◌, ◌≢◌, refl, some, returns, arith}
use phper.Values.Union.{from_ptr}
use phper.Classes.{StateConstructor}
use phper.Classes.Create.{Objects, as_mut_object, from_mut_object_ptr, run_closure, read_state}

-- The state's place is found from the object.
pub place_lem : (p : ℕ) → p ≢ 0 → from_mut_object_ptr (as_mut_object p) ≡ returns p
unfolding from_mut_object_ptr as_mut_object from_ptr
place_lem p h = let back : p + 16 - 16 ≡ p = omega arith in rw back (ground arith)

module _ {D W : Type 0} where
  pub read_lem :
      (p : ℕ) (s : Objects D W) (d : D) → s.states p ≡ some d → read_state p s ≡ returns (d, s)
  unfolding read_state
  read_lem p s d h = rw (h, read_state) refl

  pub run_lem :
      (f : StateConstructor D W) (s : Objects D W) (d : D) (w : W)
      → f s.world ≡ returns (d, w)
      → run_closure f s ≡ returns (d, record s { world = w })
  unfolding run_closure
  run_lem f s d w h = rw (h, run_closure) refl
