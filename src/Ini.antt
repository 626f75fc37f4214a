-- ===== src/Ini.antt =====
-- phper/src/ini.rs: the registration of configuration entries and the values that are read from them
-- (the branch of PHP 7.3 and later). `Display` of `f64`, and the values of `PHP_INI_*`, are parameters.
pub mod Entries
pub mod Values
mod Examples
use phper.Base.{
  ℕ, ℤ, pos, negsuc, ◌+◌, ◌%◌, ◌^◌, Bool, true, false, ◌||◌, Option, none, some, List, [], ◌∷◌,
  ◌++◌, map, bytes_eq, bytes, decimal, length,
}

pub record PhpIni : Type 0 where
  pub ini_all : ℕ
  pub ini_user : ℕ
  pub ini_perdir : ℕ
  pub ini_system : ℕ

pub data Policy : Type 0 where
  all : Policy
  user : Policy
  perdir : Policy
  system : Policy

-- `policy as u32`.
unfoldable pub policy_value : ⦃ini : PhpIni⦄ → Policy → ℕ
policy_value ⦃ini⦄ all = ini.ini_all
policy_value ⦃ini⦄ user = ini.ini_user
policy_value ⦃ini⦄ perdir = ini.ini_perdir
policy_value ⦃ini⦄ system = ini.ini_system

-- `IntoIniValue` of `bool`, `i64` and `String`.
unfoldable pub ini_of_bool : Bool → List ℕ
ini_of_bool true = bytes "1"
ini_of_bool false = bytes "0"

unfoldable pub ini_of_i64 : ℤ → List ℕ
ini_of_i64 (pos n) = decimal n
ini_of_i64 (negsuc n) = bytes "-" ++ decimal (n + 1)

unfoldable pub ini_of_string : List ℕ → List ℕ
ini_of_string s = s

-- `FromIniValue for bool`, of the string that the engine has for the name.
unfoldable pub bool_of_ini : Option (List ℕ) → Bool
bool_of_ini none = false
bool_of_ini (some s) =
    bytes_eq s (bytes "1")
    || bytes_eq s (bytes "true")
    || bytes_eq s (bytes "on")
    || bytes_eq s (bytes "On")

pub record IniEntity : Type 0 where
  pub name : List ℕ
  pub default_value : List ℕ
  pub policy : Policy

unfoldable pub new_ini_entity : List ℕ → List ℕ → Policy → IniEntity
new_ini_entity name value policy = record { name = name; default_value = value; policy = policy }

-- A `zend_ini_entry_def`: its pointers with what stands behind them; no name is a null pointer.
pub record ZendIniEntryDef : Type 0 where
  pub name : Option (List ℕ)
  pub value : List ℕ
  pub modifiable : ℕ
  pub name_length : ℕ
  pub value_length : ℕ

unfoldable pub create_ini_entry_ex : List ℕ → List ℕ → ℕ → ZendIniEntryDef
create_ini_entry_ex name default_value modifiable = record {
  name = some name;
  value = default_value;
  modifiable = modifiable % 2 ^ 8;
  name_length = length name % 2 ^ 16;
  value_length = length default_value % 2 ^ 32;
}

abbrev pub zeroed_ini : ZendIniEntryDef
zeroed_ini = record { name = none; value = []; modifiable = 0; name_length = 0; value_length = 0 }

module _ ⦃ini : PhpIni⦄ where
  unfoldable pub ini_entry : IniEntity → ZendIniEntryDef
  unfolding create_ini_entry_ex policy_value
  ini_entry e = create_ini_entry_ex e.name e.default_value (policy_value e.policy)

  unfoldable pub ini_entries : List IniEntity → List ZendIniEntryDef
  unfolding ini_entry
  ini_entries [] = zeroed_ini ∷ []
  ini_entries (e ∷ rest) = ini_entry e ∷ ini_entries rest

  -- `register`, through the engine's `zend_register_ini_entries` (entries, module number).
  unfoldable pub register_ini :
      {W : Type 0} → (List ZendIniEntryDef → ℕ → W → W) → List IniEntity → ℕ → W → W
  unfolding ini_entries
  register_ini register_entries l module_number w = register_entries (ini_entries l) module_number w
