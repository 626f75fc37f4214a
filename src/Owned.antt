-- ===== src/Owned.antt =====
-- Who owns the engine's reference-counted strings and arrays: phper/src/strings.rs (`ZString`),
-- phper/src/arrays.rs (`ZArray`), and `Clone`, `RefClone` and `Drop` of phper/src/values.rs. The engine's
-- memory is a parameter, with what PHP documents of its counts.
pub mod Strings
pub mod Requests
pub mod Counts
pub mod Tracking
pub mod Refinement
pub mod Release
pub mod Arrays
pub mod Values
pub mod Sharing
pub mod Destroyed
mod Examples
use phper.Base.{
  ℕ, ◌+◌, ◌-◌, ◌≡◌, ◌≢◌, Bool, false, Option, none, some, List, ltb, ◌==◌, if◌then◌else◌,
}

-- A `zend_string`. An interned string is not counted and never freed.
pub record ZendString : Type 0 where
  pub refs : ℕ
  pub interned : Bool
  pub bytes : List ℕ

-- One reference more, and one less.
abbrev pub add_ref : ZendString → ZendString
add_ref z = if z.interned then z else record z { refs = z.refs + 1 }

abbrev pub del_ref : ZendString → Option ZendString
del_ref z =
    if z.interned
    then some z
    else if ltb 1 z.refs
    then some (record z { refs = z.refs - 1 })
    else none

abbrev pub found : {A : Type 0} → (ZendString → Option A) → Option ZendString → Option A
found f none = none
found f (some z) = f z

-- `zend_string_init`, `zend_string_copy`, `zend_string_release`, and the string at an address.
pub record StringMemory (M : Type 0) : Type 0 where
  pub find : M → ℕ → Option ZendString
  pub init : List ℕ → M → ℕ × M
  pub copy : ℕ → M → ℕ × M
  pub release : ℕ → M → M

abbrev pub fresh_string : List ℕ → ZendString
fresh_string s = record { refs = 1; interned = false; bytes = s }

-- PHP's documented behaviour, of strings that are there.
pub record IsStringMemory {M : Type 0} (mem : StringMemory M) : Type 0 where
  pub init_not_null : (s : List ℕ) (m : M) → (mem.init s m).0 ≢ 0
  pub init_fresh : (s : List ℕ) (m : M) → mem.find m (mem.init s m).0 ≡ none
  pub find-init :
      (s : List ℕ) (m : M) (q : ℕ)
      → mem.find (mem.init s m).1 q
        ≡ (if q == (mem.init s m).0 then some (fresh_string s) else mem.find m q)
  pub copy_same : (p : ℕ) (m : M) → (mem.copy p m).0 ≡ p
  pub find-copy :
      (p : ℕ) (m : M) (z : ZendString) (q : ℕ)
      → mem.find m p ≡ some z
      → mem.find (mem.copy p m).1 q ≡ (if q == p then some (add_ref z) else mem.find m q)
  pub find-release :
      (p : ℕ) (m : M) (z : ZendString) (q : ℕ)
      → mem.find m p ≡ some z
      → mem.find (mem.release p m) q ≡ (if q == p then del_ref z else mem.find m q)
  pub null_free : (m : M) → mem.find m 0 ≡ none
