-- ===== src/Arrays/Entry.antt =====
-- phper/src/arrays.rs: `entry`, `and_modify` and `or_insert`. The reference of an occupied entry is the
-- place in the array that `get_mut` found, by its key.
pub mod Upsert
use phper.Base.{ℕ, Option, none, some, Outcome, returns, panics, ◌>>=◌, unwrap}
use phper.Values.Union.{ZVal}
use phper.Strings
use phper.Arrays
use phper.Arrays.{Key, to_insert_key, get_mut, insert}
use phper.Arrays.Table.{ZendHash}

pub data Entry (T : Type 0) : Type 0 where
  occupied : T → Key → ZVal → Entry T
  vacant : T → Key → Entry T

module _ {T : Type 0} (hash : ZendHash T) where
  -- `*p = v` for the reference that `get_mut` returned.
  unfoldable pub store : Key → ZVal → T → Outcome T
  unfolding Strings.to_bytes
  store (Key.index i) v arr = returns (hash.index_store arr i v)
  store (Key.str s) v arr = returns (hash.symtable_str_store arr s v)
  store (Key.bytes b) v arr = returns (hash.symtable_str_store arr b v)
  store (Key.z_str s) v arr = do s ← Strings.to_bytes s; returns (hash.symtable_str_store arr s v)

  entry_of : Key → T → Option ZVal → Entry T
  entry_of key arr none = vacant arr key
  entry_of key arr (some val) = occupied arr key val

  unfoldable pub entry : Key → T → Outcome (Entry T)
  unfolding get_mut entry_of
  entry key arr = do found ← get_mut hash key arr; returns (entry_of key arr found)

  -- `f` may panic.
  unfoldable pub and_modify : (ZVal → Outcome ZVal) → Entry T → Outcome (Entry T)
  unfolding store
  and_modify f (occupied arr key val) = do
    val' ← f val
    arr' ← store key val' arr
    returns (occupied arr' key val')
  and_modify f (vacant arr key) = returns (vacant arr key)

  -- The array and the value that the returned reference points at.
  unfoldable pub or_insert : ZVal → Entry T → Outcome (T × ZVal)
  unfolding insert get_mut to_insert_key
  or_insert val (occupied arr key old) = returns (arr, old)
  or_insert val (vacant arr key) = do
    arr' ← insert hash (to_insert_key key) val arr
    found ← get_mut hash key arr'
    val' ← unwrap found
    returns (arr', val')
