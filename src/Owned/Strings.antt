-- ===== src/Owned/Strings.antt =====
-- phper/src/strings.rs: `ZString`, an owned string. A `ZString` is its pointer.
use phper.Base.{ℕ, Bool, none, some, List, Outcome, undefined, returns, take, unwrap, bytes_eq}
use phper.Base.Steps.{Steps, ◌>>=◌, modify, done, try}
use phper.Values.Union
use phper.Values.Union.{try_from_ptr}
use phper.Strings
use phper.Strings.{zstr_len}
use phper.Owned.{StringMemory}

-- `ZStr::from_mut_ptr`.
unfoldable pub from_mut_ptr : ℕ → Outcome ℕ
unfolding Union.from_ptr
from_mut_ptr p = Union.from_ptr p

-- `Deref` and `DerefMut`: the pointer, which must not be null.
unfoldable pub deref : ℕ → Outcome ℕ
unfolding try_from_ptr
deref inner = unwrap (try_from_ptr inner)

unfoldable pub from_raw : ℕ → Outcome ℕ
unfolding from_mut_ptr
from_raw p = from_mut_ptr p

-- The `ZString` is forgotten, not dropped.
unfoldable pub into_raw : ℕ → Outcome ℕ
unfolding deref
into_raw self = deref self

module _ {M : Type 0} (mem : StringMemory M) where
  -- What stands at a pointer; a read where no string is left is undefined.
  unfoldable pub read_bytes : ℕ → Steps M (List ℕ)
  read_bytes p m = elim (mem.find m p) [ none ↦ undefined | some z ↦ returns (z.bytes, m) ]

  unfoldable pub to_bytes : ℕ → Steps M (List ℕ)
  unfolding read_bytes Strings.to_bytes
  to_bytes p = do b ← read_bytes p; try (Strings.to_bytes b)

  init_string : List ℕ → Steps M ℕ
  init_string s m = returns (mem.init s m)

  copy_string : ℕ → Steps M ℕ
  copy_string p m = returns (mem.copy p m)

  unfoldable pub new : List ℕ → Steps M ℕ
  unfolding init_string from_raw
  new s = do p ← init_string s; try (from_raw p)

  -- The bytes that `phper_zstr_len` counts are copied.
  unfoldable pub clone : ℕ → Steps M ℕ
  unfolding deref read_bytes zstr_len init_string from_mut_ptr
  clone self = do
    p ← try (deref self)
    b ← read_bytes p
    n ← try (zstr_len b)
    q ← init_string (take n b)
    try (from_mut_ptr q)

  -- `ToOwned for ZStr`.
  unfoldable pub to_owned : ℕ → Steps M ℕ
  unfolding to_bytes new
  to_owned self = do b ← to_bytes self; new b

  -- `ToRefOwned for ZStr`.
  unfoldable pub to_ref_owned : ℕ → Steps M ℕ
  unfolding copy_string from_raw
  to_ref_owned self = do p ← copy_string self; try (from_raw p)

  -- `Drop for ZString`.
  unfoldable pub drop_string : ℕ → Steps M (Unit {0})
  unfolding deref
  drop_string self = do p ← try (deref self); modify (mem.release p)

  -- `PartialEq for ZString`, with a container of bytes.
  unfoldable pub eq : ℕ → List ℕ → Steps M Bool
  unfolding deref to_bytes
  eq self other = do p ← try (deref self); b ← to_bytes p; done (bytes_eq b other)
