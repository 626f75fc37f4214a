-- ===== src/Samples/Values.antt =====
-- Values with strings in a memory of cells, which has no arrays.
use phper.Base.{ℕ, ◌+◌, ◌≡◌, refl, true, false, not, Option, none, some, ltb, ◌&&◌, if◌then◌else◌}
use phper.Values.Union.{ZVal, str}
use phper.Values.From.{from_z_string}
use phper.Owned.{ZendString}
use phper.Owned.Arrays.{ArrayMemory, ZendArray}
use phper.Owned.Values.{ValueMemory, IsValueMemory}
use phper.Samples.{macros8}
use phper.Samples.Cells.{Cells, find_cell}
use phper.Samples.Strings.{cells}

abbrev pub no_arrays : ArrayMemory (Cells ZendString) (Unit {0})
no_arrays = record {
  find = λ m p. none;
  empty = λ n. tt;
  new = λ n m. (0, m);
  dup = λ p m. (0, m);
  addref = λ p m. m;
  delref = λ p m. m;
  destroy = λ p m. m;
}

abbrev pub with_string : {B : Type 0} → B → (ℕ → B) → ZVal → B
with_string b f v = elim v.value [ str p ↦ f p | _ ↦ b ]

abbrev pub separated : ℕ → Option ZendString → ZVal → Cells ZendString → ZVal × Cells ZendString
separated p none v m = (v, m)
separated p (some z) v m =
    if not z.interned && ltb 1 z.refs
    then (
      record { type_info = 6 + 256; value = str (cells.init z.bytes (cells.release p m)).0 },
      (cells.init z.bytes (cells.release p m)).1,
    )
    else (v, m)

abbrev pub value_cells : ValueMemory (Cells ZendString) (Unit {0})
value_cells = record {
  strings = cells;
  arrays = no_arrays;
  zval_copy = λ val v m. with_string (v, m) (λ p. (v, (cells.copy p m).1)) v;
  separate_string = λ v m. with_string (v, m) (λ p. separated p (find_cell m p) v m) v;
  separate_array = λ v m. (v, m);
  zval_ptr_dtor = λ v m. with_string m (λ p. cells.release p m) v;
}

pub separate_shared :
    (p : ℕ) (m : Cells ZendString) (z : ZendString)
    → find_cell m p ≡ some z
    → z.interned ≡ false
    → ltb 1 z.refs ≡ true
    → value_cells.separate_string (from_z_string ⦃macros = macros8⦄ p) m ≡ (
      from_z_string ⦃macros = macros8⦄ (cells.init z.bytes (cells.release p m)).0,
      (cells.init z.bytes (cells.release p m)).1,
    )
unfolding from_z_string
separate_shared p m z e counted shared = rw e (simp (counted, shared) refl)

pub copied_string :
    (val : ZVal) (p : ℕ) (m : Cells ZendString)
    → value_cells.zval_copy val (from_z_string ⦃macros = macros8⦄ p) m
      ≡ (from_z_string ⦃macros = macros8⦄ p, (cells.copy p m).1)
unfolding from_z_string
copied_string val p m = refl

pub released_string :
    (p : ℕ) (m : Cells ZendString)
    → value_cells.zval_ptr_dtor (from_z_string ⦃macros = macros8⦄ p) m ≡ cells.release p m
unfolding from_z_string
released_string p m = refl

pub no_array : {B : Type 0} (a : ZendArray (Unit {0})) → none ≡ some a → B
no_array a e = absurd (cc)

abbrev pub value_cells-IsValueMemory : IsValueMemory ⦃macros = macros8⦄ value_cells
value_cells-IsValueMemory = record {
  copy_string = λ val p m z e counted. copied_string val p m;
  copy_array = λ val p m a e. no_array a e;
  separate_shared_string = separate_shared;
  separate_shared_array = λ p m a e shared. no_array a e;
  dtor_string = λ p m z e counted. released_string p m;
}
