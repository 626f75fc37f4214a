-- ===== src/Owned/Arrays.antt =====
-- phper/src/arrays.rs: `ZArray`, an owned array, and `ToOwned` and `ToRefOwned` of `ZArr`. A `ZArray` is
-- its pointer. The engine's arrays are a parameter: `new` and `dup` give a new array, `addref` is
-- `Z_ADDREF_P`, and `zend_array_destroy` frees an array whatever its count.
use phper.Base.{
  ℕ, ◌+◌, ◌^◌, ◌≡◌, ◌≢◌, Option, none, some, Outcome, returns, panics, undefined, ltb, unwrap,
  if◌then◌else◌,
}
use phper.Base.Steps.{Steps, ◌>>=◌, ◌>>◌, modify, try}
use phper.Types.{PhpTypes}
use phper.Values.Union
use phper.Values.Union.{try_from_ptr}
use phper.Values.Casts.{as_mut_z_arr}
use phper.Values.From.{ZvalMacros, from_z_array}

pub record ZendArray (T : Type 0) : Type 0 where
  pub refs : ℕ
  pub table : T

pub record ArrayMemory (M T : Type 0) : Type 0 where
  pub find : M → ℕ → Option (ZendArray T)
  pub empty : ℕ → T
  pub new : ℕ → M → ℕ × M
  pub dup : ℕ → M → ℕ × M
  pub addref : ℕ → M → M
  pub delref : ℕ → M → M
  pub destroy : ℕ → M → M

-- PHP's documented behaviour, of arrays that are there. What happens to the entries is left open.
pub record IsArrayMemory {M T : Type 0} (mem : ArrayMemory M T) : Type 0 where
  pub null_free : (m : M) → mem.find m 0 ≡ none
  pub new_not_null : (n : ℕ) (m : M) → (mem.new n m).0 ≢ 0
  pub find-new :
      (n : ℕ) (m : M)
      → mem.find (mem.new n m).1 (mem.new n m).0 ≡ some (record { refs = 1; table = mem.empty n })
  pub dup_not_null : (p : ℕ) (m : M) → (mem.dup p m).0 ≢ 0
  pub dup_fresh : (p : ℕ) (m : M) → mem.find m (mem.dup p m).0 ≡ none
  pub find-dup :
      (p : ℕ) (m : M) (a : ZendArray T)
      → mem.find m p ≡ some a
      → (mem.find (mem.dup p m).1 (mem.dup p m).0 ≡ some (record { refs = 1; table = a.table }))
        × (mem.find (mem.dup p m).1 p ≡ some a)
  pub find-addref :
      (p : ℕ) (m : M) (a : ZendArray T)
      → mem.find m p ≡ some a
      → mem.find (mem.addref p m) p ≡ some (record { refs = a.refs + 1; table = a.table })
  pub find-destroy :
      (p : ℕ) (m : M) (a : ZendArray T)
      → mem.find m p ≡ some a
      → mem.find (mem.destroy p m) p ≡ none

-- `ZArr::from_mut_ptr`.
unfoldable pub from_mut_ptr : ℕ → Outcome ℕ
unfolding Union.from_ptr
from_mut_ptr p = Union.from_ptr p

unfoldable pub from_raw : ℕ → Outcome ℕ
unfolding from_mut_ptr
from_raw p = from_mut_ptr p

-- `Deref` and `DerefMut`.
unfoldable pub deref : ℕ → Outcome ℕ
unfolding try_from_ptr
deref inner = unwrap (try_from_ptr inner)

unfoldable pub into_raw : ℕ → Outcome ℕ
unfolding deref
into_raw self = deref self

module _ {M T : Type 0} (mem : ArrayMemory M T) where
  -- What stands at a pointer; a read where no array is left is undefined.
  unfoldable pub read_array : ℕ → Steps M (ZendArray T)
  read_array p m = elim (mem.find m p) [ none ↦ undefined | some a ↦ returns (a, m) ]

  -- `zend_array_dup` reads the array.
  abbrev pub dup_array : ℕ → Steps M ℕ
  dup_array p m = elim (mem.find m p) [ none ↦ undefined | some a ↦ returns (mem.dup p m) ]

  new_array : ℕ → Steps M ℕ
  new_array n m = returns (mem.new n m)

  -- `ZArray::with_capacity`: a panic where the capacity is no `u32`.
  unfoldable pub with_capacity : ℕ → Steps M ℕ
  unfolding new_array from_raw
  with_capacity n =
      let made : Steps M ℕ = (do p ← new_array n; try (from_raw p)) in
      if ltb n (2 ^ 32) then made else try panics

  -- `ZArray::new` and `Default`.
  unfoldable pub new : Steps M ℕ
  unfolding with_capacity
  new = with_capacity 0

  unfoldable pub to_owned : ℕ → Steps M ℕ
  unfolding from_raw
  to_owned self = do dest ← dup_array self; try (from_raw dest)

  unfoldable pub clone : ℕ → Steps M ℕ
  unfolding deref to_owned
  clone self = do p ← try (deref self); to_owned p

  -- `Drop for ZArray`.
  unfoldable pub drop_array : ℕ → Steps M (Unit {0})
  unfolding deref
  drop_array self = do p ← try (deref self); modify (mem.destroy p)

module _ {M T : Type 0} (mem : ArrayMemory M T) ⦃php : PhpTypes⦄ ⦃macros : ZvalMacros⦄ where
  -- The value that carries the pointer to `Z_ADDREF_P` is not dropped.
  unfoldable pub to_ref_owned : ℕ → Steps M ℕ
  unfolding from_z_array as_mut_z_arr from_raw
  to_ref_owned self = do
    let val = from_z_array self
    modify (mem.addref self)
    arr ← try (as_mut_z_arr val)
    arr ← try (unwrap arr)
    try (from_raw arr)
