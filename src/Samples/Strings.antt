-- ===== src/Samples/Strings.antt =====
-- Strings in a memory of cells.
use phper.Base.{suc, ◌∷◌, ◌++◌, [], refl, some, length, arith}
use phper.Owned.{StringMemory, IsStringMemory, ZendString, add_ref, del_ref, fresh_string}
use phper.Samples.Cells.{Cells, find_cell, change, past_end, find-append, find-change}

abbrev pub cells : StringMemory (Cells ZendString)
cells = record {
  find = find_cell;
  init = λ s m. (suc (length m), m ++ (some (fresh_string s) ∷ []));
  copy = λ p m. (p, change (λ z. some (add_ref z)) p m);
  release = λ p m. change del_ref p m;
}

abbrev pub cells-IsStringMemory : IsStringMemory cells
cells-IsStringMemory = record {
  init_not_null = λ s m. omega arith;
  init_fresh = λ s m. past_end m;
  find-init = λ s m q. find-append (fresh_string s) m q;
  copy_same = λ p m. refl;
  find-copy = λ p m z q e. find-change (λ z. some (add_ref z)) p m z q e;
  find-release = λ p m z q e. find-change del_ref p m z q e;
  null_free = λ m. refl;
}
