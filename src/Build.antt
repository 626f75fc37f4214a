-- ===== src/Build.antt =====
-- phper-build/src/lib.rs: the lines that a build script prints for cargo. The version of PHP and the flags
-- of its build, which phper-sys takes from PHP's headers, are parameters.
pub mod Macros
use phper.Base.{ℕ, Bool, List, [], ◌∷◌, ◌++◌, bytes, decimal, ◌==◌, if◌then◌else◌}

pub record PhpBuild : Type 0 where
  pub major_version : ℕ
  pub minor_version : ℕ
  pub release_version : ℕ
  pub debug : ℕ
  pub using_zts : ℕ

abbrev quoted : List ℕ → List ℕ
quoted s = 34 ∷ (s ++ (34 ∷ []))

abbrev printed_unless_zero : ℕ → List ℕ → List (List ℕ)
printed_unless_zero n line = if n == 0 then [] else line ∷ []

unfoldable pub register_configures : PhpBuild → List (List ℕ)
unfolding decimal
register_configures php =
    (bytes "cargo:rustc-cfg=phper_major_version=" ++ quoted (decimal php.major_version))
    ∷ (bytes "cargo:rustc-cfg=phper_minor_version=" ++ quoted (decimal php.minor_version))
    ∷ (bytes "cargo:rustc-cfg=phper_release_version=" ++ quoted (decimal php.release_version))
    ∷ (printed_unless_zero php.debug (bytes "cargo:rustc-cfg=phper_debug")
        ++ printed_unless_zero php.using_zts (bytes "cargo:rustc-cfg=phper_zts"))

-- `macos` is whether the target is macOS.
unfoldable pub register_link_args : (macos : Bool) → List (List ℕ)
register_link_args macos =
    if macos
    then bytes "cargo:rustc-link-arg=-undefined" ∷ bytes "cargo:rustc-link-arg=dynamic_lookup" ∷ []
    else []

unfoldable pub register_all : (macos : Bool) → PhpBuild → List (List ℕ)
unfolding register_link_args register_configures
register_all macos php = register_link_args macos ++ register_configures php
