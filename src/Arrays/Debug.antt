-- ===== src/Arrays/Debug.antt =====
-- phper/src/arrays.rs: `Debug` of a `ZArr` and a `ZArray`, which prints what the iterator yields.
use phper.Base.{ℕ, ◌<◌, ◌≡◌, refl, List, map, bytes}
use phper.Values.Union.{ZVal}
use phper.Arrays.Table.{ZendHash, IsZendHash}
use phper.Arrays.Iter.{IterKey, iter}
use phper.Arrays.Iteration.{collect, shown, iter-entries}

-- `f.debug_tuple(name)` with one map.
pub record DebugArray : Type 0 where
  pub name : List ℕ
  pub field : List (IterKey × ZVal)

module _ {T : Type 0} (hash : ZendHash T) (rounds : ℕ) where
  -- `debug_map().entries(iter)` takes items until there are no more, for at most so many rounds.
  unfoldable pub common_fmt : T → List ℕ → DebugArray
  unfolding iter
  common_fmt this name = record { name = name; field = (collect hash rounds (iter hash this)).0 }

  unfoldable pub fmt_z_arr : T → DebugArray
  unfolding common_fmt
  fmt_z_arr this = common_fmt this (bytes "ZArr")

  unfoldable pub fmt_z_array : T → DebugArray
  unfolding common_fmt
  fmt_z_array this = common_fmt this (bytes "ZArray")

module _ {T : Type 0} (hash : ZendHash T) (is : IsZendHash hash) (t : T) where
  -- Every entry is printed once, in order, if there are more rounds than entries.
  common_fmt-entries :
      (rounds : ℕ) (name : List ℕ)
      → hash.count t < rounds
      → common_fmt hash rounds t name ≡ record { name = name; field = map shown (is.entries t) }
  unfolding common_fmt
  common_fmt-entries rounds name enough = rw ((iter-entries hash is t rounds enough).0) refl
