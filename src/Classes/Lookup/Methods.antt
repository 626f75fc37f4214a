-- ===== src/Classes/Lookup/Methods.antt =====
-- `ClassEntry::has_method` (phper/src/classes.rs) compares names with their case.
use phper.Base.{
  ℕ, ◌≡◌, ◌≢◌, refl, ap, ◌∙◌, true, false, none, Option-cases, inl, inr, List, returns, is_some,
}
use phper.Arrays.{Key}
use phper.Arrays.Table.{text, lookup, symbol, ZendHash, IsZendHash}
use phper.Arrays.Access.{exists-lookup}
use phper.Classes.Lookup.{has_method}

module _ {T : Type 0} (hash : ZendHash T) (is : IsZendHash hash) (lower : List ℕ → List ℕ) where
  -- PHP keeps a method under its name in lower case.
  abbrev pub KeysAreLower : T → Type 0
  KeysAreLower table =
      (s : List ℕ) → is_some (lookup (text s) (is.entries table)) ≡ true → lower s ≡ s

  -- In a table whose names are in lower case `has_method` finds no name that is not, so not the name of a
  -- method as it was declared if that has capital letters (and is no number).
  pub has_method-lower :
      (table : T) (name : List ℕ)
      → KeysAreLower table
      → is.numeric name ≡ none
      → lower name ≢ name
      → has_method hash table name ≡ returns false
  unfolding has_method
  has_method-lower table name keys no_number mixed =
      let as_text : symbol is.numeric name ≡ text name = rw (no_number, symbol) refl in
      let e =
        exists-lookup hash is (Key.str name) table tt
        ∙ ap (λ k. returns (is_some (lookup k (is.entries table)))) as_text in
      elim (Option-cases (lookup (text name) (is.entries table))) [
        | inl missing ↦ e ∙ ap (λ o. returns (is_some o)) missing
        | inr (v, there) ↦ absurd (mixed (keys name (ap is_some there)))
      ]
