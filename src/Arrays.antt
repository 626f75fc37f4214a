-- ===== src/Arrays.antt =====
-- phper/src/arrays.rs: `ZArr` over the engine's hash table. The table and the functions behind
-- `phper_zend_hash_*` and `phper_zend_symtable_*` (phper-sys/php_wrapper.c) are a parameter.
pub mod Table
pub mod Assoc
pub mod Access
pub mod Entry
pub mod Iter
pub mod Iteration
pub mod Debug
pub mod Push
pub mod Refinement
mod Examples
use phper.Base.{
  ℕ, ◌≡◌, Bool, true, false, Option, none, some, List, Outcome, returns, panics, ◌>>=◌, unwrap,
  is_some, length, ltb, ◌^◌, ◌==◌, if◌then◌else◌,
}
use phper.Values.Union.{ZVal}
use phper.Strings
use phper.Arrays.Table.{ZendHash}

pub data Key : Type 0 where
  index : ℕ → Key
  str : List ℕ → Key
  bytes : List ℕ → Key
  z_str : List ℕ → Key

pub data InsertKey : Type 0 where
  next_index : InsertKey
  index : ℕ → InsertKey
  str : List ℕ → InsertKey
  bytes : List ℕ → InsertKey
  z_str : List ℕ → InsertKey

-- `From<Key> for InsertKey`.
unfoldable pub to_insert_key : Key → InsertKey
to_insert_key (Key.index i) = InsertKey.index i
to_insert_key (Key.str s) = InsertKey.str s
to_insert_key (Key.bytes b) = InsertKey.bytes b
to_insert_key (Key.z_str s) = InsertKey.z_str s

module _ {T : Type 0} (hash : ZendHash T) where
  unfoldable pub len : T → ℕ
  len arr = hash.count arr

  unfoldable pub is_empty : T → Bool
  unfolding len
  is_empty arr = len arr == 0

  -- The value of a failed insert with the next index is lost.
  push_next : ZVal → T → T
  push_next value arr = elim (hash.next_index_insert arr value) [ none ↦ arr | some arr' ↦ arr' ]

  -- A `ZStr` is passed as its pointer and length.
  unfoldable pub insert : InsertKey → ZVal → T → Outcome T
  unfolding push_next Strings.to_bytes
  insert InsertKey.next_index value arr = returns (push_next value arr)
  insert (InsertKey.index i) value arr = returns (hash.index_update arr i value)
  insert (InsertKey.str s) value arr = returns (hash.symtable_str_update arr s value)
  insert (InsertKey.bytes b) value arr = returns (hash.symtable_str_update arr b value)
  insert (InsertKey.z_str s) value arr = do
    s ← Strings.to_bytes s
    returns (hash.symtable_str_update arr s value)

  inner_get : Key → T → Outcome (Option ZVal)
  unfolding Strings.to_bytes
  inner_get (Key.index i) arr = returns (hash.index_find arr i)
  inner_get (Key.str s) arr = returns (hash.symtable_str_find arr s)
  inner_get (Key.bytes b) arr = returns (hash.symtable_str_find arr b)
  inner_get (Key.z_str s) arr = do s ← Strings.to_bytes s; returns (hash.symtable_str_find arr s)

  unfoldable pub get : Key → T → Outcome (Option ZVal)
  unfolding inner_get
  get key arr = inner_get key arr

  -- The value that the reference points at.
  unfoldable pub get_mut : Key → T → Outcome (Option ZVal)
  unfolding inner_get
  get_mut key arr = inner_get key arr

  unfoldable pub exists : Key → T → Outcome Bool
  unfolding Strings.to_bytes
  exists (Key.index i) arr = returns (hash.index_exists arr i)
  exists (Key.str s) arr = returns (hash.symtable_str_exists arr s)
  exists (Key.bytes b) arr = returns (hash.symtable_str_exists arr b)
  exists (Key.z_str s) arr = do s ← Strings.to_bytes s; returns (hash.symtable_str_exists arr s)

  unfoldable pub remove : Key → T → Outcome (T × Bool)
  unfolding Strings.to_bytes
  remove (Key.index i) arr = returns (hash.index_del arr i)
  remove (Key.str s) arr = returns (hash.symtable_str_del arr s)
  remove (Key.bytes b) arr = returns (hash.symtable_str_del arr b)
  remove (Key.z_str s) arr = do s ← Strings.to_bytes s; returns (hash.symtable_str_del arr s)

  -- `ZArray::with_capacity`: a panic where the capacity is no `u32`.
  unfoldable pub with_capacity : ℕ → Outcome T
  with_capacity n = if ltb n (2 ^ 32) then returns (hash.new_array n) else panics

  unfoldable pub new : Outcome T
  unfolding with_capacity
  new = with_capacity 0
