-- ===== src/Testing/Scripts.antt =====
-- phper-test/src/cli.rs: scripts that PHP runs with the extension. The operating system is a parameter; a
-- condition is the test's, and may panic.
use phper.Base.{
  ℕ, Bool, true, false, ◌≡◌, refl, Option, none, some, List, [], ◌∷◌, ◌&&◌, map, is_utf8, ◌==◌,
  if◌then◌else◌, Bool-cases, inl, inr, Option-cases,
}
use phper.Testing.Context.{FilePath, Context, ContextCommand, create_command_with_lib, path_is_utf8}
use phper.Testing.Fpm.{Process, Tested, ◌>>=◌, ◌>>◌, done, assert, unwrapped}

-- `std::process::Output`; the code is missing where a signal ended the process.
pub record Output : Type 0 where
  pub code : Option ℕ
  pub stdout : List ℕ
  pub stderr : List ℕ

abbrev pub success : Output → Bool
success o = elim o.code [ none ↦ false | some code ↦ code == 0 ]

-- `Command::output`, `Command::spawn` and `Child::kill`, which may fail.
pub record Commands (W : Type 0) : Type 0 where
  pub output : ContextCommand → W → Option Output × W
  pub spawn_child : ContextCommand → W → Option ℕ × W
  pub kill_child : ℕ → W → Option (Unit {0}) × W
  pub display : FilePath → List ℕ

abbrev pub ScriptCondition : Type 0
ScriptCondition = FilePath × (Output → Option Bool)

abbrev pub in_world : {W A : Type 0} → (W → Option A × W) → Tested W A
in_world f s = let (o, w) = f s.world in (o, record s { world = w })

module _ {W : Type 0} (commands : Commands W) (lib_path : FilePath) where
  -- The loop over the scripts and their conditions.
  test_each : Context → List ScriptCondition → Tested W (Unit {0})
  unfolding create_command_with_lib path_is_utf8
  test_each context [] = done tt
  test_each context ((script, condition) ∷ scripts) = do
    output ←
        in_world
          (commands.output (create_command_with_lib commands.display context lib_path script))
    assert (path_is_utf8 script)
    assert (is_utf8 output.stdout)
    assert (is_utf8 output.stderr)
    holds ← unwrapped (condition output)
    assert holds
    test_each context scripts

  -- The scripts with what PHP gives for each when all of them run, one after another.
  abbrev pub all_outputs : Context → List FilePath → W → List (FilePath × Option Output)
  all_outputs context [] w = []
  all_outputs context (script ∷ scripts) w =
      let (o, w') =
        commands.output (create_command_with_lib commands.display context lib_path script) w in
      (script, o) ∷ all_outputs context scripts w'

  abbrev pub all_pass : List (FilePath × Option Output) → Bool
  all_pass [] = true
  all_pass ((script, none) ∷ outputs) = false
  all_pass ((script, some o) ∷ outputs) =
      let rest = all_pass outputs in
      if path_is_utf8 script && (is_utf8 o.stdout && (is_utf8 o.stderr && success o))
      then rest
      else false

  -- The verdict on the scripts: `none` is a panic.
  abbrev pub verdict : Option Context → List FilePath → W → Option (Unit {0})
  verdict none scripts w = none
  verdict (some context) scripts w =
      if all_pass (all_outputs context scripts w) then some tt else none

  abbrev conditions : List FilePath → List ScriptCondition
  conditions scripts = map (λ script. (script, λ output. some (success output))) scripts

  -- The rest of a run, from what PHP gave for its first script.
  judged : Context → FilePath → List FilePath → Option Output × W → Tested W (Unit {0})
  judged context script scripts (o, w) s =
      (do
        output ← (λ s. (o, record s { world = w }))
        assert (path_is_utf8 script)
        assert (is_utf8 output.stdout)
        assert (is_utf8 output.stderr)
        assert (success output)
        test_each context (conditions scripts))
        s

  judged_lem :
      (context : Context) (script : FilePath) (scripts : List FilePath) (r : Option Output × W)
      (s : Process W)
      → ((s' : Process W)
          → (test_each context (conditions scripts) s').0
            ≡ (if all_pass (all_outputs context scripts s'.world) then some tt else none))
      → (judged context script scripts r s).0
        ≡ (if all_pass ((script, r.0) ∷ all_outputs context scripts r.1) then some tt else none)
  unfolding judged
  judged_lem context script scripts (none, w) s ih = refl
  judged_lem context script scripts (some o, w) s ih = elim (Bool-cases (path_is_utf8 script)) [
    | inl text ↦ elim (Bool-cases (is_utf8 o.stdout)) [
      | inl out ↦ elim (Bool-cases (is_utf8 o.stderr)) [
        | inl err ↦ elim (Bool-cases (success o)) [
          | inl code ↦ rw (text, out, err, code) (ih (record s { world = w }))
          | inr code ↦ rw (text, out, err, code) refl
        ]
        | inr err ↦ rw (text, out, err) refl
      ]
      | inr out ↦ rw (text, out) refl
    ]
    | inr text ↦ rw text refl
  ]

  test_each_lem :
      (context : Context) (scripts : List FilePath) (s : Process W)
      → (test_each context (conditions scripts) s).0
        ≡ (if all_pass (all_outputs context scripts s.world) then some tt else none)
  unfolding test_each judged
  test_each_lem context [] s = refl
  test_each_lem context (script ∷ scripts) s =
      judged_lem context script scripts
        (commands.output (create_command_with_lib commands.display context lib_path script) s.world)
        s (λ s'. test_each_lem context scripts s')

-- `global` is what `Context::get_global` gives: `none` where it panics.
module _ {W : Type 0} (commands : Commands W) (global : Option Context) (lib_path : FilePath) where
  unfoldable pub test_php_scripts_with_condition : List ScriptCondition → Tested W (Unit {0})
  unfolding test_each
  test_php_scripts_with_condition scripts = do
    context ← unwrapped global
    test_each commands lib_path context scripts

  unfoldable pub test_php_scripts : List FilePath → Tested W (Unit {0})
  unfolding test_php_scripts_with_condition
  test_php_scripts scripts =
      test_php_scripts_with_condition
        (map (λ script. (script, λ output. some (success output))) scripts)

  -- `catch_unwind` and `resume_unwind`: the child is killed where the condition panics, too.
  caught : ℕ → Option (Unit {0}) × Process W → Option (Unit {0}) × Process W
  caught child (r, s) = (do in_world (commands.kill_child child); unwrapped r) s

  unfoldable pub test_long_term_php_script_with_condition :
      FilePath → (ℕ → Tested W (Unit {0})) → Tested W (Unit {0})
  unfolding create_command_with_lib caught
  test_long_term_php_script_with_condition script condition = do
    context ← unwrapped global
    child ←
        in_world
          (commands.spawn_child (create_command_with_lib commands.display context lib_path script))
    (λ s. caught child (condition child s))

  -- `test_php_scripts` returns exactly where `Context::get_global` does and all scripts, run one after
  -- another, have a path in UTF-8 and give an output in UTF-8 and the exit code 0; else it panics.
  pub test_php_scripts_lem :
      (scripts : List FilePath) (s : Process W)
      → (test_php_scripts scripts s).0 ≡ verdict commands lib_path global scripts s.world
  unfolding test_php_scripts test_php_scripts_with_condition
  test_php_scripts_lem scripts s = elim (Option-cases global) [
    | inl missing ↦ rw missing refl
    | inr (context, found) ↦ rw found (test_each_lem commands lib_path context scripts s)
  ]
