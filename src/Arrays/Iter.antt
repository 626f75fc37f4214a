-- ===== src/Arrays/Iter.antt =====
-- phper/src/arrays.rs: `RawIter`, and `Iter` and `IterMut`, which hand its items on.
use phper.Base.{ℕ, Bool, true, false, Option, none, some, List, if◌then◌else◌}
use phper.Values.Union.{ZVal}
use phper.Arrays.Table.{ZendHash, CurrentKey, is_string, is_long, non_existent}

pub data IterKey : Type 0 where
  index : ℕ → IterKey
  z_str : List ℕ → IterKey

pub record RawIter (T : Type 0) : Type 0 where
  pub arr : T
  pub pos : ℕ
  pub finished : Bool

-- The key of the current item; `none` where there is no item.
iter_key : CurrentKey → Option IterKey
iter_key (is_string s) = some (z_str s)
iter_key (is_long i) = some (index i)
iter_key non_existent = none

module _ {T : Type 0} (hash : ZendHash T) where
  unfoldable pub iter : T → RawIter T
  iter arr = record { arr = arr; pos = hash.pointer_reset arr; finished = false }

  finish : RawIter T → RawIter T
  finish it = record it { finished = true }

  -- A failure to move forward ends the iteration after this item.
  advance : RawIter T → Option ℕ → RawIter T
  unfolding finish
  advance it none = finish it
  advance it (some pos) = record it { pos = pos }

  item : RawIter T → Option IterKey → Option ZVal → Option (IterKey × ZVal) × RawIter T
  unfolding finish advance
  item it none val = (none, finish it)
  item it (some key) none = (none, finish it)
  item it (some key) (some val) = (some (key, val), advance it (hash.move_forward it.arr it.pos))

  unfoldable pub next : RawIter T → Option (IterKey × ZVal) × RawIter T
  unfolding item iter_key
  next it =
      if it.finished
      then (none, it)
      else item it (iter_key (hash.current_key it.arr it.pos)) (hash.current_data it.arr it.pos)

-- `Iter` and `IterMut` hold a `RawIter` and give its items, with the values as references.
pub record Iter (T : Type 0) : Type 0 where
  pub raw : RawIter T

pub record IterMut (T : Type 0) : Type 0 where
  pub raw : RawIter T

module _ {T : Type 0} (hash : ZendHash T) where
  unfoldable pub shared_iter : T → Iter T
  unfolding iter
  shared_iter arr = record { raw = iter hash arr }

  unfoldable pub iter_mut : T → IterMut T
  unfolding iter
  iter_mut arr = record { raw = iter hash arr }

  unfoldable pub iter_next : Iter T → Option (IterKey × ZVal) × Iter T
  unfolding next
  iter_next it = let (item, raw) = next hash it.raw in (item, record { raw = raw })

  unfoldable pub iter_mut_next : IterMut T → Option (IterKey × ZVal) × IterMut T
  unfolding next
  iter_mut_next it = let (item, raw) = next hash it.raw in (item, record { raw = raw })
