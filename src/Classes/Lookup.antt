-- ===== src/Classes/Lookup.antt =====
-- phper/src/classes.rs: `ClassEntry::from_globals`, `has_method`, and the static properties of a class.
-- `to_lowercase` of the standard library, the table of classes and the address of a static property
-- are parameters; an address is 0 where there is no such class or property.
pub mod Methods
pub mod Statics
use phper.Base.{
  ℕ, Bool, Option, none, some, List, Outcome, returns, Result, ok, err, ◌==◌, if◌then◌else◌,
}
use phper.Errors.{Error, class_not_found}
use phper.Values.Union.{ZVal, try_from_ptr}
use phper.Arrays
use phper.Arrays.{Key}
use phper.Arrays.Table.{ZendHash}

module _ (to_lowercase : List ℕ → List ℕ) (class_table : List ℕ → ℕ) where
  unfoldable pub find_global_class_entry_ptr : List ℕ → ℕ
  find_global_class_entry_ptr name = class_table (to_lowercase name)

  found_class : List ℕ → Option ℕ → Result ℕ Error
  found_class name none = err (class_not_found (record { class_name = name }))
  found_class name (some p) = ok p

  unfoldable pub from_globals : List ℕ → Result ℕ Error
  unfolding find_global_class_entry_ptr try_from_ptr found_class
  from_globals class_name =
      found_class class_name (try_from_ptr (find_global_class_entry_ptr class_name))

-- The class's table of functions is searched as an array.
unfoldable pub has_method : {T : Type 0} → ZendHash T → T → List ℕ → Outcome Bool
unfolding Arrays.exists
has_method hash function_table method_name = Arrays.exists hash (Key.str method_name) function_table

-- The static properties by address.
abbrev pub Cells : Type 0
Cells = ℕ → ZVal

read_at : Option ℕ → Cells → Option ZVal
read_at none cells = none
read_at (some p) cells = some (cells p)

-- `replace` returns the value that was there.
replace_at : Option ℕ → ZVal → Cells → Option ZVal × Cells
replace_at none val cells = (none, cells)
replace_at (some p) val cells = (some (cells p), λ q. if q == p then val else cells q)

module _ (property_ptr : List ℕ → ℕ) where
  unfoldable pub inner_get_static_property : List ℕ → ℕ
  inner_get_static_property name = property_ptr name

  unfoldable pub get_static_property : List ℕ → Cells → Option ZVal
  unfolding inner_get_static_property try_from_ptr read_at
  get_static_property name cells = read_at (try_from_ptr (inner_get_static_property name)) cells

  unfoldable pub set_static_property : List ℕ → ZVal → Cells → Option ZVal × Cells
  unfolding inner_get_static_property try_from_ptr replace_at
  set_static_property name val cells =
      replace_at (try_from_ptr (inner_get_static_property name)) val cells
