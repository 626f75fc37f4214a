-- ===== src/Build/Macros.antt =====
-- phper-macros/src/inner.rs: the attribute `php_get_module`. The parts of a parsed function that it only
-- copies are lists of tokens, of any type.
use phper.Base.{
  ℕ, ◌≡◌, refl, Bool, true, false, ◌&&◌, List, [], bytes, bytes_eq, if◌then◌else◌, Bool-cases, inl,
  inr,
}

-- `syn::Visibility`; `restricted` is `pub(...)`.
pub data Visibility (K : Type 0) : Type 0 where
  public : Visibility K
  restricted : List K → Visibility K
  inherited : Visibility K

-- `syn::ItemFn`.
pub record ItemFn (K : Type 0) : Type 0 where
  pub attrs : List K
  pub vis : Visibility K
  pub ident : List ℕ
  pub inputs : List K
  pub output : List K
  pub block : List K

-- What the attribute leaves in place of the function: an error of the compiler, or an exported function of
-- this name and these attributes that calls the `internal` within, as a `fn() -> Module`, and returns the
-- entry of the module that this makes.
pub data Expansion (K : Type 0) : Type 0 where
  compile_error : List ℕ → Expansion K
  extern_fn :
      (attrs : List K) → Visibility K → (name : List ℕ) → (internal : ItemFn K) → Expansion K

abbrev pub is_public : {K : Type 0} → Visibility K → Bool
is_public public = true
is_public (restricted path) = false
is_public inherited = false

unfoldable pub php_get_module : {K : Type 0} → ItemFn K → Expansion K
php_get_module input =
    if bytes_eq input.ident (bytes "get_module")
    then (if is_public input.vis
        then extern_fn input.attrs input.vis input.ident
            (record input { attrs = []; vis = inherited; ident = bytes "internal" })
        else compile_error (bytes "function `get_module` must be public"))
    else compile_error (bytes "function name with attribute `php_get_module` must be `get_module`")

abbrev pub is_exported : {K : Type 0} → Expansion K → Bool
is_exported (compile_error message) = false
is_exported (extern_fn attrs vis name internal) = true

-- A function is exported exactly if it is public and has the name `get_module`.
php_get_module_lem :
    {K : Type 0} (input : ItemFn K)
    → is_exported (php_get_module input)
      ≡ (bytes_eq input.ident (bytes "get_module") && is_public input.vis)
unfolding php_get_module
php_get_module_lem input = elim (Bool-cases (bytes_eq input.ident (bytes "get_module"))) [
  | inl named ↦ elim (Bool-cases (is_public input.vis)) [
    | inl shown ↦ rw (named, shown) refl
    | inr hidden ↦ rw (named, hidden) refl
  ]
  | inr other ↦ rw other refl
]
