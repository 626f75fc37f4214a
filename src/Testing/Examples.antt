-- ===== src/Testing/Examples.antt =====
-- A script that succeeds before one that does not, and a php-fpm that does not start at first (phper-test).
use phper.Base.{
  ℕ, List, is_utf8, ◌+◌, ◌≡◌, refl, none, some, [], ◌∷◌, undefined, bytes, ltb, if◌then◌else◌,
}
use phper.Testing.Context.{path_is_utf8, FilePath, Context, find_php_fpm}
use phper.Testing.Fpm.{System, setup, exit}
use phper.Testing.Scripts.{Commands, test_php_scripts, test_php_scripts_lem}
use phper.Testing.Lifecycle.{unstarted, started, exit-setup_twice}

abbrev context8 : Context
context8 = record { php_bin = bytes "usr" ∷ bytes "bin" ∷ bytes "php8" ∷ []; ini_content = [] }

-- The world counts what happens; php-fpm starts when it has counted to one.
abbrev system8 : System ℕ
system8 = record {
  php_fpm_bin = λ w. none;
  create_conf = λ w. (5, w);
  drop_conf = λ c w. w + 1;
  spawn = λ argv w. (if ltb w 1 then none else some 77, w);
  read_log = λ w. some [];
  kill = λ child w. w + 10;
  display = λ p. [];
  conf_path = λ c. [];
}

abbrev lib8 : FilePath
lib8 = bytes "libhello.so" ∷ []

exit-setup_twice_example :
    (setup system8 context8 lib8 (unstarted system8 context8 lib8 0 0)
      ≡ (none, unstarted system8 context8 lib8 1 1))
    × (setup system8 context8 lib8 (unstarted system8 context8 lib8 1 1)
        ≡ (some tt, started system8 context8 lib8 2 5 77 1))
    × (exit system8 context8 (started system8 context8 lib8 2 5 77 1) ≡ undefined)
unfolding find_php_fpm
exit-setup_twice_example =
    exit-setup_twice system8 context8 lib8 0 0 1 5 5 77 []
      (record {
        php_fpm = bytes "usr" ∷ bytes "sbin" ∷ bytes "php-fpm8" ∷ [];
        found = refl;
        conf_made = refl;
        not_spawned = refl;
      })
      (record {
        php_fpm = bytes "usr" ∷ bytes "sbin" ∷ bytes "php-fpm8" ∷ [];
        found = refl;
        conf_made = refl;
        spawned = refl;
        logged = refl;
      })

-- The first script that is run ends with the code 0, and the next with 255.
abbrev commands8 : Commands ℕ
commands8 = record {
  output = λ command w. (
    some (record { code = some (if ltb w 1 then 0 else 255); stdout = bytes "ok"; stderr = [] }),
    w + 1,
  );
  spawn_child = λ command w. (some 77, w);
  kill_child = λ child w. (some tt, w);
  display = λ p. [];
}

abbrev two_scripts : List FilePath
two_scripts = (bytes "a.php" ∷ []) ∷ (bytes "b.php" ∷ []) ∷ []

test_php_scripts_lem_example :
    (test_php_scripts commands8
      (some context8)
      lib8
      two_scripts
      (unstarted system8 context8 lib8 0 0)).0
    ≡ none
unfolding is_utf8 path_is_utf8
test_php_scripts_lem_example =
    test_php_scripts_lem commands8 (some context8) lib8 two_scripts
      (unstarted system8 context8 lib8 0 0)
