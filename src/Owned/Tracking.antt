-- ===== src/Owned/Tracking.antt =====
-- Each request on `ZString`s (phper/src/strings.rs) returns, keeps the counts, and gives the owners the
-- texts that Rust strings would have.
use phper.Base.{
  ℕ, ◌+◌, ◌^◌, ◌<◌, ◌≡◌, ◌≢◌, refl, sym, ◌∙◌, ap, none, some, List, ◌∷◌, Outcome, returns, arith,
  length, get_elem?, take, take-length,
}
use phper.Strings.Length.{len_exact, to_bytes_small}
use phper.Owned.{StringMemory, IsStringMemory, ZendString}
use phper.Owned.Strings.{
  from_mut_ptr, from_raw, deref, read_bytes, to_bytes, new, clone, to_owned, to_ref_owned,
  drop_string,
}
use phper.Base.Places.{without, count, count-without, count_positive}
use phper.Owned.Counts.{
  Keeps, SameBytes, bytes_of, Kept-there, Keeps-init, Keeps-copy, Keeps-release,
}

pub from_raw_lem : (p : ℕ) → p ≢ 0 → from_raw p ≡ returns p
unfolding from_raw from_mut_ptr
from_raw_lem p h = ground arith

pub deref_lem : (p : ℕ) → p ≢ 0 → deref p ≡ returns p
unfolding deref
deref_lem p h = ground arith

module _ {M : Type 0} (mem : StringMemory M) where
  abbrev pub view : M → ℕ → List ℕ
  view m p = bytes_of (mem.find m p)

module _ {M : Type 0} (mem : StringMemory M) (is : IsStringMemory mem) (held : ℕ → ℕ)
    (owners : List ℕ) (m : M) (k : Keeps mem held owners m) where
  -- A new owner, which reads `s`; what others read is as before.
  abbrev pub Made : List ℕ → Outcome (ℕ × M) → Type 0
  Made s made =
      (p : ℕ) × (m' : M) × (made ≡ returns (p, m'))
      × Keeps mem held (p ∷ owners) m'
      × (view mem m' p ≡ s)
      × SameBytes mem held owners m m'

  pub there :
      (p : ℕ)
      → 0 < held p + count p owners
      → (y : ZendString) × (mem.find m p ≡ some y) × (length y.bytes < 2 ^ 31) × (p ≢ 0)
  there p left =
      let (y, e, short) = Kept-there (held p) (count p owners) (mem.find m p) (k p) left in
      (
        y,
        e,
        short,
        λ null.
            let nothing : mem.find m p ≡ none = ap (mem.find m) null ∙ is.null_free m in
            let clash : some y ≡ none = sym e ∙ nothing in absurd (cc),
      )

  pub new-Made : (s : List ℕ) → length s < 2 ^ 31 → Made s (new mem s m)
  unfolding new
  new-Made s short =
      let (keeps, reads, same) = Keeps-init mem is held s owners m short k in
      (_, _, rw (from_raw_lem (mem.init s m).0 (is.init_not_null s m)) refl, keeps, reads, same)

  pub to_ref_owned-Made :
      (p : ℕ) → 0 < held p + count p owners → Made (view mem m p) (to_ref_owned mem p m)
  unfolding to_ref_owned
  to_ref_owned-Made p left =
      let (y, e, short, not_null) = there p left in
      let (keeps, same) = Keeps-copy mem is held p owners m left k in
      (
        p,
        (mem.copy p m).1,
        rw (is.copy_same p m, from_raw_lem p not_null) refl,
        keeps,
        same p,
        λ q left. same q,
      )

  -- Both copies are a new string with the bytes that are read.
  clone-new :
      (p : ℕ) (y : ZendString)
      → mem.find m p ≡ some y
      → p ≢ 0
      → length y.bytes < 2 ^ 31
      → clone mem p m ≡ new mem y.bytes m
  unfolding clone read_bytes new from_raw from_mut_ptr
  clone-new p y e not_null short =
      let all : take (length y.bytes) y.bytes ≡ y.bytes = take-length y.bytes in
      rw (deref_lem p not_null)
        (rw (e, read_bytes) (rw ((len_exact y.bytes).1 short) (rw all refl)))

  to_owned-new :
      (p : ℕ) (y : ZendString)
      → mem.find m p ≡ some y
      → length y.bytes < 2 ^ 31
      → to_owned mem p m ≡ new mem y.bytes m
  unfolding to_owned to_bytes read_bytes
  to_owned-new p y e short = rw (e, read_bytes) (rw (to_bytes_small y.bytes short) refl)

  pub clone-Made : (p : ℕ) → 0 < held p + count p owners → Made (view mem m p) (clone mem p m)
  clone-Made p left =
      let (y, e, short, not_null) = there p left in
      rw (clone-new p y e not_null short, e) (new-Made y.bytes short)

  pub to_owned-Made : (p : ℕ) → 0 < held p + count p owners → Made (view mem m p) (to_owned mem p m)
  to_owned-Made p left =
      let (y, e, short, not_null) = there p left in
      rw (to_owned-new p y e short, e) (new-Made y.bytes short)

  -- Dropping the owner at a place leaves the others, which read what they did.
  pub drop_string-left :
      (i p : ℕ)
      → get_elem? owners i ≡ some p
      → (drop_string mem p m ≡ returns (tt, mem.release p m))
        × Keeps mem held (without i owners) (mem.release p m)
        × SameBytes mem held (without i owners) m (mem.release p m)
  unfolding drop_string
  drop_string-left i p at_i =
      let owned : 0 < count p owners = count_positive owners i p at_i in
      let (y, e, short, not_null) = there p (omega arith) in
      let (keeps, same) =
        Keeps-release mem is held p owners (without i owners) m
          (λ q. count-without owners i p q at_i) k in
      (rw (deref_lem p not_null) refl, keeps, same)
