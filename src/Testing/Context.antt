-- ===== src/Testing/Context.antt =====
-- phper-test/src/context.rs: `Context`; phper-test/src/utils.rs: `get_lib_path`. A `FilePath` is a Rust `Path` as the list of its
-- components, texts are bytes, and white space is that of ASCII.
use phper.Base.{
  true, false, is_utf8, ℕ, Bool, ◌||◌, Option, none, some, List, [], ◌∷◌, ◌++◌, Outcome, returns,
  ◌>>=◌, unwrap, bytes, ◌==◌, if◌then◌else◌,
}

abbrev pub FilePath : Type 0
FilePath = List (List ℕ)

pub record Context : Type 0 where
  pub php_bin : FilePath
  pub ini_content : List ℕ

-- Whether `Path::to_str` gives a text: the separators do not matter for it.
unfoldable pub path_is_utf8 : FilePath → Bool
unfolding is_utf8
path_is_utf8 [] = true
path_is_utf8 (c ∷ rest) = let more = path_is_utf8 rest in if is_utf8 c then more else false

-- `Path::parent` and `Path::file_name`.
abbrev pub parent : FilePath → Option FilePath
parent [] = none
parent (c ∷ []) = some []
parent (c ∷ d ∷ rest) = elim (parent (d ∷ rest)) [ none ↦ none | some p ↦ some (c ∷ p) ]

abbrev pub file_name : FilePath → Option (List ℕ)
file_name [] = none
file_name (c ∷ []) = some c
file_name (c ∷ d ∷ rest) = file_name (d ∷ rest)

abbrev pub strip_prefix : List ℕ → List ℕ → Option (List ℕ)
strip_prefix [] s = some s
strip_prefix (p ∷ ps) [] = none
strip_prefix (p ∷ ps) (b ∷ s) = let rest = strip_prefix ps s in if p == b then rest else none

abbrev pub and_then {ℓ} : {A B : Type ℓ} → Option A → (A → Option B) → Option B
and_then none f = none
and_then (some a) f = f a

-- The name of php-fpm beside that of php: what follows `php` is kept.
abbrev version_suffix : Option (List ℕ) → List ℕ
version_suffix none = []
version_suffix (some suffix) = suffix

unfoldable pub find_php_fpm : (php_fpm_bin : Option FilePath) → Context → Option FilePath
find_php_fpm (some bin) context = some bin
find_php_fpm none context = and_then (and_then (parent context.php_bin) parent) (λ p.
    and_then (file_name context.php_bin) (λ name. some (
      p
      ++ (bytes "sbin"
          ∷ (bytes "php-fpm" ++ version_suffix (strip_prefix (bytes "php") name))
          ∷ []))))

-- `ContextCommand`: the program and its arguments.
pub record ContextCommand : Type 0 where
  pub program : FilePath
  pub args : List (List ℕ)

unfoldable pub create_command_with_lib :
    (display : FilePath → List ℕ) → Context → FilePath → FilePath → ContextCommand
create_command_with_lib display context lib_path script = record {
  program = context.php_bin;
  args = bytes "-n" ∷ bytes "-d" ∷ (bytes "extension=" ++ display lib_path) ∷ display script ∷ [];
}

unfoldable pub get_args : ContextCommand → List (List ℕ)
get_args c = c.args

-- `str::trim`.
abbrev pub is_space : ℕ → Bool
is_space c = (c == 32) || (c == 10) || (c == 13) || (c == 9) || (c == 12) || (c == 11)

abbrev pub trim_start : List ℕ → List ℕ
trim_start [] = []
trim_start (c ∷ rest) = let r = trim_start rest in if is_space c then r else c ∷ rest

abbrev pub trim_end : List ℕ → List ℕ
trim_end [] = []
trim_end (c ∷ rest) = elim (trim_end rest) [
  | [] ↦ if is_space c then [] else c ∷ []
  | d ∷ more ↦ c ∷ d ∷ more
]

abbrev pub trim : List ℕ → List ℕ
trim s = trim_end (trim_start s)

-- `str::split`, at a byte: one piece more than there are such bytes.
abbrev pub push_first : ℕ → List (List ℕ) → List (List ℕ)
push_first c [] = (c ∷ []) ∷ []
push_first c (piece ∷ pieces) = (c ∷ piece) ∷ pieces

abbrev pub split : ℕ → List ℕ → List (List ℕ)
split sep [] = [] ∷ []
split sep (c ∷ rest) =
    let pieces = split sep rest in if c == sep then [] ∷ pieces else push_first c pieces

-- The contents of the files that are named, one after another; a file that cannot be read is a panic.
module _ (read_to_string : List ℕ → Option (List ℕ)) where
  unfoldable pub read_file : List ℕ → Outcome (List ℕ)
  read_file [] = returns []
  read_file (c ∷ name) = unwrap (read_to_string (c ∷ name))

  unfoldable pub read_files : List (List ℕ) → Outcome (List ℕ)
  unfolding read_file
  read_files [] = returns []
  read_files (file ∷ files) = do
    content ← read_file (trim file)
    more ← read_files files
    returns (content ++ more)

  -- `get_global`, of what `php_ini_loaded_file()` and `php_ini_scanned_files()` print.
  unfoldable pub get_global : FilePath → (ini_file ini_files : List ℕ) → Outcome Context
  unfolding read_file read_files
  get_global php_bin ini_file ini_files = do
    first ← read_file ini_file
    rest ← elim ini_files [ [] ↦ returns [] | c ∷ names ↦ read_files (split 44 (c ∷ names)) ]
    returns (record { php_bin = php_bin; ini_content = first ++ rest })

-- `get_lib_path`: `debug` and `ext` are the build's.
unfoldable pub get_lib_path : (debug : Bool) → (ext : List ℕ) → FilePath → List ℕ → FilePath
get_lib_path debug ext target_path package_name =
    target_path
    ++ ((if debug then bytes "debug" else bytes "release")
        ∷ (bytes "lib" ++ (package_name ++ ext))
        ∷ [])
