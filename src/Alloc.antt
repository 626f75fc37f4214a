-- ===== src/Alloc.antt =====
-- phper-alloc/src/lib.rs: `EBox`, a value in memory of `emalloc`. An `EBox` is its pointer; the heap has
-- the values by address and the list of the values dropped so far, the latest first. `fresh` is what
-- `phper_emalloc` returns, and `size` is the size of the type.
pub mod Ownership
mod Examples
use phper.Base.{
  ℕ, ◌≡◌, Option, none, some, List, [], ◌∷◌, Outcome, returns, panics, undefined, ◌==◌,
  if◌then◌else◌,
}
use phper.Base.Steps.{Steps, ◌>>=◌, ◌>>◌, modify, done, gets}

pub record Heap (T : Type 0) : Type 0 where
  pub cells : ℕ → Option T
  pub dropped : List T

unfoldable pub from_raw : ℕ → ℕ
from_raw raw = raw

-- The `EBox` is not dropped.
unfoldable pub into_raw : ℕ → ℕ
into_raw b = b

module _ {T : Type 0} where
  set_cell : ℕ → Option T → Heap T → Heap T
  set_cell p o h = record h { cells = λ q. if q == p then o else h.cells q }

  -- A read at an address where no value stands is undefined.
  read_cell : ℕ → Steps (Heap T) T
  read_cell p h = elim (h.cells p) [ none ↦ undefined | some x ↦ returns (x, h) ]

  unfoldable pub new : (size fresh : ℕ) → T → Steps (Heap T) ℕ
  unfolding set_cell
  new size fresh x h = if size == 0 then panics else returns (fresh, set_cell fresh (some x) h)

  unfoldable pub deref : ℕ → Steps (Heap T) T
  unfolding read_cell
  deref b = read_cell b

  -- `Drop for EBox`: the value is dropped in place, then its memory is given back.
  unfoldable pub drop_box : ℕ → Steps (Heap T) (Unit {0})
  unfolding read_cell set_cell
  drop_box b = do
    x ← read_cell b
    modify (λ h. record h { dropped = x ∷ h.dropped })
    modify (set_cell b none)

  -- `self.ptr.read()`, and the drop of `self` at the end of the function.
  unfoldable pub into_inner : ℕ → Steps (Heap T) T
  unfolding read_cell drop_box
  into_inner b = do x ← read_cell b; drop_box b; done x
