-- ===== src/Samples/Arrays.antt =====
-- Arrays in a memory of cells; an array is the numbers that it holds.
use phper.Base.{
  ℕ, suc, ◌+◌, ◌-◌, ◌∷◌, ◌++◌, ◌≡◌, [], List, Option, refl, none, some, length, arith, ==-self, ◌∙◌,
}
use phper.Owned.Arrays.{ZendArray, ArrayMemory, IsArrayMemory}
use phper.Samples.Cells.{Cells, find_cell, change, past_end, find-append, find-change}

abbrev pub Numbers : Type 0
Numbers = ZendArray (List ℕ)

abbrev pub copy_of : Option Numbers → Option Numbers
copy_of none = none
copy_of (some a) = some (record { refs = 1; table = a.table })

abbrev pub array_cells : ArrayMemory (Cells Numbers) (List ℕ)
array_cells = record {
  find = find_cell;
  empty = λ n. [];
  new = λ n m. (suc (length m), m ++ (some (record { refs = 1; table = [] }) ∷ []));
  dup = λ p m. (suc (length m), m ++ (copy_of (find_cell m p) ∷ []));
  addref = λ p m. change (λ a. some (record { refs = a.refs + 1; table = a.table })) p m;
  delref = λ p m. change (λ a. some (record { refs = a.refs - 1; table = a.table })) p m;
  destroy = λ p m. change (λ a. none) p m;
}

pub find-dup_cell :
    (p : ℕ) (m : Cells Numbers) (a : Numbers)
    → find_cell m p ≡ some a
    → (find_cell (m ++ (copy_of (find_cell m p) ∷ [])) (suc (length m))
        ≡ some (record { refs = 1; table = a.table }))
      × (find_cell (m ++ (copy_of (find_cell m p) ∷ [])) p ≡ some a)
find-dup_cell p m a e = rw e (
  find-append (record { refs = 1; table = a.table }) m (suc (length m)) ∙ rw ==-self refl,
  ground (arith, find-append {A = Numbers} (record { refs = 1; table = a.table }) m p, past_end m),
)

pub find-change_here :
    (f : Numbers → Option Numbers) (p : ℕ) (m : Cells Numbers) (a : Numbers)
    → find_cell m p ≡ some a
    → find_cell (change f p m) p ≡ f a
find-change_here f p m a e = find-change f p m a p e ∙ rw ==-self refl

abbrev pub array_cells-IsArrayMemory : IsArrayMemory array_cells
array_cells-IsArrayMemory = record {
  null_free = λ m. refl;
  new_not_null = λ n m. omega arith;
  find-new =
      λ n m. find-append (record { refs = 1; table = [] }) m (suc (length m)) ∙ rw ==-self refl;
  dup_not_null = λ p m. omega arith;
  dup_fresh = λ p m. past_end m;
  find-dup = find-dup_cell;
  find-addref = λ p m a e. find-change_here _ p m a e;
  find-destroy = λ p m a e. find-change_here _ p m a e;
}
