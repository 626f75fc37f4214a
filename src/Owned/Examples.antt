-- ===== src/Owned/Examples.antt =====
-- A few requests on `ZString`s (phper/src/strings.rs), next to a string of the engine and an interned one.
use phper.Base.{
  ℕ, zero, suc, ◌≡◌, ◌≢◌, refl, undefined, true, false, none, some, List, [], ◌∷◌, map, returns,
  arith, bytes, inl, inr, ◌==◌, if◌then◌else◌,
}
use phper.Base.Steps.{◌>>=◌}
use phper.Samples.{php8, macros8}
use phper.Values.From.{from_z_string}
use phper.Samples.Arrays.{Numbers, array_cells, array_cells-IsArrayMemory}
use phper.Samples.Values.{value_cells, value_cells-IsValueMemory}
use phper.Owned.{ZendString}
use phper.Owned.Values
use phper.Owned.Values.{drop_val, into_inner}
use phper.Owned.Sharing.{counted_string, drop_val-clone, into_inner-released}
use phper.Owned.Arrays.{to_ref_owned, drop_array, read_array}
use phper.Owned.Destroyed.{drop_array-to_ref_owned}
use phper.Samples.Cells.{Cells}
use phper.Samples.Strings.{cells, cells-IsStringMemory}
use phper.Owned.Requests.{
  Request, create, adopt, clone_of, owned_copy_of, share, through_raw, discard, apply_all, drop_all,
}
use phper.Owned.Counts.{gone, counted, kept_interned, Keeps}
use phper.Owned.Tracking.{view}
use phper.Owned.Refinement.{AllValid, Holds, apply_all-all_texts}
use phper.Owned.Release.{is_counted, drop_all-apply_all}

abbrev start : Cells ZendString
start =
    some (record { refs = 1; interned = false; bytes = bytes "php" })
    ∷ some (record { refs = 1; interned = true; bytes = bytes "id" })
    ∷ []

abbrev engine_refs : ℕ → ℕ
engine_refs q = if q == 1 then 1 else 0

abbrev engine_text : ℕ → List ℕ
engine_text q = bytes "php"

start-Keeps : Keeps cells engine_refs [] start
start-Keeps zero = gone refl (omega arith)
start-Keeps (suc zero) = counted (bytes "php") refl (omega arith) (omega arith)
start-Keeps (suc (suc zero)) = kept_interned 1 (bytes "id") refl (omega arith)
start-Keeps (suc (suc (suc q))) = gone refl (ground arith)

start-Holds : Holds cells cells-IsStringMemory engine_refs engine_text start
start-Holds zero = inl refl
start-Holds (suc zero) = inr refl
start-Holds (suc (suc q)) = inl (ground arith)

abbrev requests : List Request
requests =
    adopt 1
    ∷ create (bytes "ab")
    ∷ clone_of 1
    ∷ share 1
    ∷ discard 2
    ∷ through_raw 1
    ∷ owned_copy_of 9
    ∷ []

requests_valid : AllValid engine_refs requests
requests_valid = omega arith

apply_all-all_texts_example :
    (owners : List ℕ) × (m : Cells ZendString) × (apply_all cells requests [] start
      ≡ returns (owners, m))
    × Keeps cells engine_refs owners m
    × Holds cells cells-IsStringMemory engine_refs engine_text m
    × (map (view cells m) owners ≡ bytes "php" ∷ bytes "ab" ∷ bytes "php" ∷ [])
apply_all-all_texts_example =
    apply_all-all_texts cells cells-IsStringMemory engine_refs engine_text requests start
      requests_valid start-Keeps start-Holds

drop_all-apply_all_example :
    (m : Cells ZendString) × ((apply_all cells requests [] >>= drop_all cells) start
      ≡ returns (tt, m))
    × (is_counted (cells.find m 3) ≡ false)
drop_all-apply_all_example =
    drop_all-apply_all cells cells-IsStringMemory engine_refs engine_text requests start 3
      requests_valid start-Keeps start-Holds refl

abbrev two_strings : Cells ZendString
two_strings = some (counted_string 1 (bytes "php")) ∷ some (counted_string 2 (bytes "rust")) ∷ []

drop_val-clone_example :
    (q : ℕ) × (m₁ m₂ : Cells ZendString) × (Values.clone value_cells ⦃php = php8⦄
        (from_z_string ⦃macros = macros8⦄ 2)
        two_strings
      ≡ returns (from_z_string ⦃macros = macros8⦄ q, m₁))
    × (q ≢ 2)
    × (cells.find m₁ q ≡ some (counted_string 1 (bytes "rust")))
    × (cells.find m₁ 2 ≡ some (counted_string 2 (bytes "rust")))
    × (drop_val value_cells ⦃php = php8⦄ (from_z_string ⦃macros = macros8⦄ q) m₁ ≡ returns (tt, m₂))
    × ((x : ℕ) → cells.find m₂ x ≡ cells.find two_strings x)
drop_val-clone_example =
    drop_val-clone value_cells ⦃php = php8⦄ ⦃macros = macros8⦄ value_cells-IsValueMemory
      cells-IsStringMemory 2 two_strings 2 (bytes "rust") refl (omega arith)

into_inner-released_example :
    (m₁ : Cells ZendString) × (into_inner value_cells ⦃php = php8⦄
        (from_z_string ⦃macros = macros8⦄ 1)
        two_strings
      ≡ returns (from_z_string ⦃macros = macros8⦄ 1, m₁))
    × (cells.find m₁ 1 ≡ none)
into_inner-released_example =
    into_inner-released value_cells ⦃php = php8⦄ ⦃macros = macros8⦄ value_cells-IsValueMemory
      cells-IsStringMemory 1 two_strings (bytes "php") refl

abbrev one_array : Cells Numbers
one_array = some (record { refs = 1; table = 3 ∷ 4 ∷ [] }) ∷ []

drop_array-to_ref_owned_example :
    (m₁ m₂ : Cells Numbers) × (to_ref_owned array_cells ⦃php = php8⦄ ⦃macros = macros8⦄ 1 one_array
      ≡ returns (1, m₁))
    × (array_cells.find m₁ 1 ≡ some (record { refs = 2; table = 3 ∷ 4 ∷ [] }))
    × (drop_array array_cells 1 m₁ ≡ returns (tt, m₂))
    × (read_array array_cells 1 m₂ ≡ undefined)
drop_array-to_ref_owned_example =
    drop_array-to_ref_owned array_cells array_cells-IsArrayMemory ⦃php = php8⦄ ⦃macros = macros8⦄ 1
      one_array (record { refs = 1; table = 3 ∷ 4 ∷ [] }) refl
