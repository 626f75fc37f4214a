-- ===== src/Owned/Destroyed.antt =====
-- A `ZArray` that shares its array (phper/src/arrays.rs, `ToRefOwned` and `Drop`).
use phper.Base.{ℕ, ◌+◌, ◌≡◌, ◌≢◌, refl, sym, ◌∙◌, ap, none, some, returns, ok, undefined, arith, []}
use phper.Types.{PhpTypes}
use phper.Values.Union.{ZVal}
use phper.Values.From.{ZvalMacros, from_z_array}
use phper.Values.Casts.{as_mut_z_arr}
use phper.Values.Expect.{expect_z_arr, expect_mut_z_arr}
use phper.Values.RoundTrip.{expect-from_pointers}
use phper.Owned.Arrays.{
  ZendArray, ArrayMemory, IsArrayMemory, from_mut_ptr, from_raw, deref, read_array, dup_array,
  to_owned, clone, to_ref_owned, drop_array,
}

from_raw_lem : (p : ℕ) → p ≢ 0 → from_raw p ≡ returns p
unfolding from_raw from_mut_ptr
from_raw_lem p h = ground arith

deref_lem : (p : ℕ) → p ≢ 0 → deref p ≡ returns p
unfolding deref
deref_lem p h = ground arith

module _ {M T : Type 0} (mem : ArrayMemory M T) (is : IsArrayMemory mem) where
  not_null : (p : ℕ) (m : M) (a : ZendArray T) → mem.find m p ≡ some a → p ≢ 0
  not_null p m a e null =
      let clash : some a ≡ none = sym e ∙ (ap (mem.find m) null ∙ is.null_free m) in absurd (cc)

  drop_array_lem : (p : ℕ) (m : M) → p ≢ 0 → drop_array mem p m ≡ returns (tt, mem.destroy p m)
  unfolding drop_array
  drop_array_lem p m h = rw (deref_lem p h) refl

  -- A clone is another array with the same entries and no other owner; the source is as before.
  pub clone_lem :
      (p : ℕ) (m : M) (a : ZendArray T)
      → mem.find m p ≡ some a
      → (q : ℕ) × (m' : M) × (clone mem p m ≡ returns (q, m'))
        × (q ≢ p)
        × (mem.find m' q ≡ some (record { refs = 1; table = a.table }))
        × (mem.find m' p ≡ some a)
  unfolding clone to_owned
  clone_lem p m a e = (
    (mem.dup p m).0,
    (mem.dup p m).1,
    rw (deref_lem p (not_null p m a e))
        (rw (e, dup_array) (rw (from_raw_lem (mem.dup p m).0 (is.dup_not_null p m)) refl)),
    λ same.
        let clash : some a ≡ none = sym e ∙ (ap (mem.find m) (sym same) ∙ is.dup_fresh p m) in
        absurd (cc),
    (is.find-dup p m a e).0,
    (is.find-dup p m a e).1,
  )

module _ {M T : Type 0} (mem : ArrayMemory M T) (is : IsArrayMemory mem) ⦃php : PhpTypes⦄
    ⦃macros : ZvalMacros⦄ where
  mut_same : (v : ZVal) → expect_mut_z_arr v ≡ expect_z_arr v
  unfolding expect_mut_z_arr expect_z_arr
  mut_same v = refl

  as_mut_z_arr_lem : (p : ℕ) → p ≢ 0 → as_mut_z_arr (from_z_array p) ≡ returns (some p)
  unfolding as_mut_z_arr
  as_mut_z_arr_lem p h =
      let read : expect_z_arr (from_z_array p) ≡ returns (ok p) =
        (expect-from_pointers p [] (λ q. none) h).1 in
      rw (mut_same (from_z_array p), read) refl

  -- `to_ref_owned` gives a second owner of the same array and counts it. When one of the two is dropped,
  -- the array is freed all the same: a read by the owner that is left is undefined.
  pub drop_array-to_ref_owned :
      (p : ℕ) (m : M) (a : ZendArray T)
      → mem.find m p ≡ some a
      → (m₁ m₂ : M) × (to_ref_owned mem p m ≡ returns (p, m₁))
        × (mem.find m₁ p ≡ some (record { refs = a.refs + 1; table = a.table }))
        × (drop_array mem p m₁ ≡ returns (tt, m₂))
        × (read_array mem p m₂ ≡ undefined)
  unfolding to_ref_owned read_array
  drop_array-to_ref_owned p m a e =
      let nonzero : p ≢ 0 = not_null mem is p m a e in
      let two : mem.find (mem.addref p m) p ≡ some (record { refs = a.refs + 1; table = a.table }) =
        is.find-addref p m a e in
      (
        mem.addref p m,
        mem.destroy p (mem.addref p m),
        rw (as_mut_z_arr_lem p nonzero) (rw (from_raw_lem p nonzero) refl),
        two,
        drop_array_lem mem is p (mem.addref p m) nonzero,
        rw (is.find-destroy p (mem.addref p m) _ two, read_array) refl,
      )
