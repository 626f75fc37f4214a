-- ===== src/Ini/Entries.antt =====
-- What the engine reads of the entries that phper/src/ini.rs registers.
use phper.Base.{
  ℕ, ◌^◌, ◌<◌, ◌≡◌, refl, ap, none, some, List, [], ◌∷◌, map, length, take, take-length, arith, ◌%◌,
}
use phper.Ini.{
  PhpIni, IniEntity, ZendIniEntryDef, ini_entries, ini_entry, create_ini_entry_ex, policy_value,
}

-- The engine reads entries up to a null name, and of a name and a value as many bytes as their lengths
-- say.
abbrev pub read_entries : List ZendIniEntryDef → List (List ℕ × List ℕ × ℕ)
read_entries [] = []
read_entries (d ∷ rest) = elim d.name [
  | none ↦ []
  | some name ↦
      (take d.name_length name, take d.value_length d.value, d.modifiable) ∷ read_entries rest
]

abbrev pub AllFit : ⦃ini : PhpIni⦄ → List IniEntity → Type 0
AllFit [] = Unit
AllFit (e ∷ rest) =
    ((length e.name < 2 ^ 16) × (length e.default_value < 2 ^ 32) × (policy_value e.policy < 2 ^ 8))
    × AllFit rest

abbrev pub entity_view : ⦃ini : PhpIni⦄ → IniEntity → List ℕ × List ℕ × ℕ
entity_view e = (e.name, e.default_value, policy_value e.policy)

module _ ⦃ini : PhpIni⦄ where
  -- The engine reads the name, the default value and the policy of every entry, in order, if names
  -- are shorter than 2^16 bytes, values than 2^32, and policies are bytes.
  pub read_entries-ini_entries :
      (l : List IniEntity) → AllFit l → read_entries (ini_entries l) ≡ map entity_view l
  unfolding ini_entries ini_entry create_ini_entry_ex
  read_entries-ini_entries [] h = refl
  read_entries-ini_entries (e ∷ rest) h =
      let name : length e.name % 2 ^ 16 ≡ length e.name = omega (arith, h.0.0) in
      let value : length e.default_value % 2 ^ 32 ≡ length e.default_value = omega (arith, h.0.1) in
      let policy : policy_value e.policy % 2 ^ 8 ≡ policy_value e.policy = omega (arith, h.0.2) in
      rw (name, value, policy, take-length e.name, take-length e.default_value)
        (ap (λ more. entity_view e ∷ more) (read_entries-ini_entries rest h.1))
