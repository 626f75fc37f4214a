-- ===== src/Testing/Lifecycle.antt =====
-- The life of php-fpm in a test process (phper-test/src/fpm.rs).
use phper.Base.{
  ℕ, zero, suc, ◌+◌, ◌≡◌, refl, ap, ◌∙◌, true, false, none, some, List, [], ◌∷◌, returns, undefined,
  if◌then◌else◌, bytes_eq_refl,
}
use phper.Testing.Context.{FilePath, Context, find_php_fpm}
use phper.Testing.Fpm.{
  Process, System, path_eq, fpm_argv, start_fpm, get_or_init, setup, teardown, run_hooks, exit,
  or_drop,
}

path_eq_refl : (p : FilePath) → path_eq p p ≡ true
path_eq_refl [] = refl
path_eq_refl (c ∷ p) = rw (path_eq_refl p, bytes_eq_refl c) refl

module _ {W : Type 0} (system : System W) (context : Context) (lib_path : FilePath) where
  -- No test has set php-fpm up.
  abbrev pub unstarted : ℕ → W → Process W
  unstarted hooks w = record { fpm_handle = none; conf_dropped = false; hooks = hooks; world = w }

  abbrev pub started : ℕ → (conf child : ℕ) → W → Process W
  started hooks conf child w = record {
    fpm_handle = some (record { lib_path = lib_path; fpm_child = child; fpm_conf_file = conf });
    conf_dropped = false;
    hooks = hooks;
    world = w;
  }

  -- php-fpm is found and starts in `w`, and leaves a log in `w'`.
  pub record Starts (w w' : W) (conf child : ℕ) (log : List ℕ) : Type 0 where
    pub php_fpm : FilePath
    pub found : find_php_fpm (system.php_fpm_bin w) context ≡ some php_fpm
    pub conf_made : (system.create_conf w).0 ≡ conf
    pub spawned :
        system.spawn (fpm_argv system context php_fpm lib_path conf) (system.create_conf w).1
        ≡ (some child, w')
    pub logged : system.read_log w' ≡ some log

  -- php-fpm is found in `w` and does not start, which leaves `w'`.
  pub record StartFails (w w' : W) (conf : ℕ) : Type 0 where
    pub php_fpm : FilePath
    pub found : find_php_fpm (system.php_fpm_bin w) context ≡ some php_fpm
    pub conf_made : (system.create_conf w).0 ≡ conf
    pub not_spawned :
        system.spawn (fpm_argv system context php_fpm lib_path conf) (system.create_conf w).1
        ≡ (none, w')

  setup-unstarted :
      (hooks : ℕ) (w w' : W) (conf child : ℕ) (log : List ℕ)
      → Starts w w' conf child log
      → setup system context lib_path (unstarted hooks w)
        ≡ (some tt, started (hooks + 1) conf child w')
  unfolding setup get_or_init start_fpm or_drop
  setup-unstarted hooks w w' conf child log starts =
      rw starts.found
        (rw (starts.conf_made, starts.spawned) (rw (starts.logged, path_eq_refl lib_path) refl))

  setup-failed :
      (hooks : ℕ) (w w' : W) (conf : ℕ)
      → StartFails w w' conf
      → setup system context lib_path (unstarted hooks w)
        ≡ (none, unstarted (hooks + 1) (system.drop_conf conf w'))
  unfolding setup get_or_init start_fpm or_drop
  setup-failed hooks w w' conf fails = rw fails.found (rw (fails.conf_made, fails.not_spawned) refl)

  setup-started :
      (hooks conf child : ℕ) (w : W) (other : FilePath)
      → setup system context other (started hooks conf child w)
        ≡ (if path_eq lib_path other then some tt else none, started hooks conf child w)
  unfolding setup get_or_init
  setup-started hooks conf child w other = refl

  -- So many more tests of the same library.
  abbrev pub more_setups : ℕ → Process W → Process W
  more_setups zero s = s
  more_setups (suc n) s = more_setups n (setup system context lib_path s).1

  more_setups-started :
      (n hooks conf child : ℕ) (w : W)
      → more_setups n (started hooks conf child w) ≡ started hooks conf child w
  more_setups-started zero hooks conf child w = refl
  more_setups-started (suc n) hooks conf child w =
      ap (λ r. more_setups n r.1) (setup-started hooks conf child w lib_path)
      ∙ more_setups-started n hooks conf child w

  -- Where php-fpm starts, one is started for all tests of a library, a test of another library panics,
  -- and at the exit its file is removed and it is killed, once.
  pub exit-setup :
      (w w' : W) (conf child n : ℕ) (log : List ℕ) (other : FilePath)
      → Starts w w' conf child log
      → path_eq lib_path other ≡ false
      → (setup system context lib_path (unstarted 0 w) ≡ (some tt, started 1 conf child w'))
        × (more_setups n (started 1 conf child w') ≡ started 1 conf child w')
        × (setup system context other (started 1 conf child w') ≡ (none, started 1 conf child w'))
        × (exit system context (started 1 conf child w')
            ≡ returns (record (started 1 conf child w') {
              conf_dropped = true;
              world = system.kill child (system.drop_conf conf w');
            }))
  unfolding exit run_hooks teardown
  exit-setup w w' conf child n log other starts apart = (
    setup-unstarted 0 w w' conf child log starts,
    more_setups-started n 1 conf child w',
    setup-started 1 conf child w' other ∙ rw apart refl,
    refl,
  )

  -- Where php-fpm does not start for a first test and starts for the next, the hook is registered twice:
  -- at the exit the temporary file is dropped twice, which is undefined.
  pub exit-setup_twice :
      (w w₁ w₂ : W) (conf conf' child : ℕ) (log : List ℕ)
      → StartFails w w₁ conf
      → Starts (system.drop_conf conf w₁) w₂ conf' child log
      → (setup system context lib_path (unstarted 0 w)
          ≡ (none, unstarted 1 (system.drop_conf conf w₁)))
        × (setup system context lib_path (unstarted 1 (system.drop_conf conf w₁))
            ≡ (some tt, started 2 conf' child w₂))
        × (exit system context (started 2 conf' child w₂) ≡ undefined)
  unfolding exit run_hooks teardown
  exit-setup_twice w w₁ w₂ conf conf' child log fails starts = (
    setup-failed 0 w w₁ conf fails,
    setup-unstarted 1 (system.drop_conf conf w₁) w₂ conf' child log starts,
    refl,
  )
