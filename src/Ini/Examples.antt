-- ===== src/Ini/Examples.antt =====
-- One configuration entry in phper/src/ini.rs.
use phper.Base.{◌≡◌, [], ◌∷◌, arith, bytes}
use phper.Ini.{PhpIni, Policy, IniEntity, ini_entries, policy_value}
use phper.Ini.Entries.{read_entries, read_entries-ini_entries}

abbrev ini8 : PhpIni
ini8 = record { ini_all = 7; ini_user = 1; ini_perdir = 2; ini_system = 4 }

abbrev demo : IniEntity
demo = record { name = bytes "demo.on"; default_value = bytes "1"; policy = Policy.all }

read_entries-ini_entries_example :
    read_entries (ini_entries ⦃ini = ini8⦄ (demo ∷ [])) ≡ (bytes "demo.on", bytes "1", 7) ∷ []
unfolding policy_value
read_entries-ini_entries_example =
    read_entries-ini_entries ⦃ini = ini8⦄ (demo ∷ []) ((omega arith, omega arith, omega arith), tt)
