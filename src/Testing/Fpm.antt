-- ===== src/Testing/Fpm.antt =====
-- phper-test/src/fpm.rs: one php-fpm for all tests of a process. A test that panics does not end the
-- process, so a step gives `none` for a panic, and the state in any case. The system is a parameter.
use phper.Base.{
  ℕ, zero, suc, ◌+◌, Bool, true, false, Option, none, some, List, [], ◌∷◌, ◌++◌, bytes, bytes_eq,
  if◌then◌else◌, Outcome, returns, panics, undefined,
}
use phper.Testing.Context.{FilePath, Context, find_php_fpm}

-- `FpmHandle`; `conf` is the temporary file.
pub record FpmHandle : Type 0 where
  pub lib_path : FilePath
  pub fpm_child : ℕ
  pub fpm_conf_file : ℕ

-- `FPM_HANDLE`, whether its temporary file was dropped, how often `teardown` was registered by `atexit`,
-- and the system.
pub record Process (W : Type 0) : Type 0 where
  pub fpm_handle : Option FpmHandle
  pub conf_dropped : Bool
  pub hooks : ℕ
  pub world : W

-- The system: environment, temporary files, processes. `spawn` is `spawn_command`, which gives `none` where
-- the process does not start or does not run after the wait; `conf_path` is a path in UTF-8, as that of
-- the directory for temporary files. The context of the steps below is what `Context::get_global` gave.
pub record System (W : Type 0) : Type 0 where
  pub php_fpm_bin : W → Option FilePath
  pub create_conf : W → ℕ × W
  pub drop_conf : ℕ → W → W
  pub spawn : List (List ℕ) → W → Option ℕ × W
  pub read_log : W → Option (List ℕ)
  pub kill : ℕ → W → W
  pub display : FilePath → List ℕ
  pub conf_path : ℕ → List ℕ

abbrev pub Tested : Type 0 → Type 0 → Type 0
Tested W A = Process W → Option A × Process W

module _ {W A B : Type 0} where
  abbrev pub go_on : Option A × Process W → (A → Tested W B) → Option B × Process W
  go_on (none, s) f = (none, s)
  go_on (some a, s) f = f a s

  infixl 5 ◌>>=◌ ◌>>◌
  abbrev pub ◌>>=◌ : Tested W A → (A → Tested W B) → Tested W B
  ◌>>=◌ m f s = go_on (m s) f

  abbrev pub ◌>>◌ : Tested W A → Tested W B → Tested W B
  m >> n = m >>= λ _. n

module _ {W A : Type 0} where
  abbrev pub done : A → Tested W A
  done a s = (some a, s)

  abbrev pub panic : Tested W A
  panic s = (none, s)

  abbrev pub unwrapped : Option A → Tested W A
  unwrapped o s = (o, s)

  abbrev pub on_world : (W → A × W) → Tested W A
  on_world f s = let (a, w) = f s.world in (some a, record s { world = w })

abbrev pub assert : {W : Type 0} → Bool → Tested W (Unit {0})
assert b s = (if b then some tt else none, s)

abbrev pub path_eq : FilePath → FilePath → Bool
path_eq [] [] = true
path_eq [] (d ∷ q) = false
path_eq (c ∷ p) [] = false
path_eq (c ∷ p) (d ∷ q) = let rest = path_eq p q in if bytes_eq c d then rest else false

module _ {W : Type 0} (system : System W) (context : Context) where
  unfoldable pub fpm_argv : FilePath → FilePath → ℕ → List (List ℕ)
  fpm_argv php_fpm lib_path conf =
      system.display php_fpm
      ∷ bytes "-F"
      ∷ bytes "-n"
      ∷ bytes "-d"
      ∷ (bytes "extension=" ++ system.display lib_path)
      ∷ bytes "-y"
      ∷ system.conf_path conf
      ∷ []

  -- A temporary file is removed where a panic drops it.
  unfoldable pub or_drop : {A : Type 0} → ℕ → Option A → Tested W A
  or_drop conf none s = (none, record s { world = system.drop_conf conf s.world })
  or_drop conf (some a) s = (some a, s)

  -- The closure of `get_or_init`: the hook is registered before php-fpm is started.
  unfoldable pub start_fpm : FilePath → Tested W FpmHandle
  unfolding find_php_fpm fpm_argv or_drop
  start_fpm lib_path = do
    (λ s. (some tt, record s { hooks = s.hooks + 1 }))
    php_fpm ← (λ s. (find_php_fpm (system.php_fpm_bin s.world) context, s))
    conf ← on_world system.create_conf
    child ← on_world (system.spawn (fpm_argv php_fpm lib_path conf))
    child ← or_drop conf child
    log ← (λ s. (some (system.read_log s.world), s))
    log ← or_drop conf log
    done (record { lib_path = lib_path; fpm_child = child; fpm_conf_file = conf })

  -- `OnceCell::get_or_init`: a panic leaves the cell empty.
  unfoldable pub get_or_init : FilePath → Option FpmHandle → Tested W FpmHandle
  unfolding start_fpm
  get_or_init lib_path (some h) = done h
  get_or_init lib_path none = do
    h ← start_fpm lib_path
    (λ s. (some h, record s { fpm_handle = some h }))

  unfoldable pub setup : FilePath → Tested W (Unit {0})
  unfolding get_or_init
  setup lib_path = do
    h ← (λ s. get_or_init lib_path s.fpm_handle s)
    assert (path_eq h.lib_path lib_path)

  -- `teardown`, at the exit of the process: a panic where there is no handle, and a second drop of the
  -- temporary file is undefined.
  unfoldable pub teardown : Process W → Outcome (Process W)
  teardown s = elim s.fpm_handle [
    | none ↦ panics
    | some h ↦
        if s.conf_dropped
        then undefined
        else returns (record s {
          conf_dropped = true;
          world = system.kill h.fpm_child (system.drop_conf h.fpm_conf_file s.world);
        })
  ]

  -- The exit runs every hook that was registered.
  unfoldable pub run_hooks : ℕ → Process W → Outcome (Process W)
  unfolding teardown
  run_hooks zero s = returns s
  run_hooks (suc n) s = elim (teardown s) [
    | returns s' ↦ run_hooks n s'
    | panics ↦ panics
    | undefined ↦ undefined
  ]

  unfoldable pub exit : Process W → Outcome (Process W)
  unfolding run_hooks
  exit s = run_hooks s.hooks s
