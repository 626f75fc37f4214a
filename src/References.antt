-- ===== src/References.antt =====
-- phper/src/references.rs: `ZRef`, a reference that holds a value; phper/src/resources.rs: `ZRes`. A
-- pointer to one is an address, with 0 for null.
use phper.Base.{
  ℕ, ℤ, ◌≡◌, refl, Outcome, Option, returns, ◌>>=◌, ◌==◌, ==-self, if◌then◌else◌, bytes, List,
}
use phper.Values.Union
use phper.Values.Union.{ZVal, try_from_ptr}
use phper.Values.Debug.{DebugField, fmt}
use phper.Types.{PhpTypes}

-- The values that references hold, and the handles of resources, by address.
pub record Shared : Type 0 where
  pub vals : ℕ → ZVal
  pub handles : ℕ → ℤ

unfoldable pub ref_from_ptr : ℕ → Outcome ℕ
unfolding Union.from_ptr
ref_from_ptr p = Union.from_ptr p

unfoldable pub ref_try_from_ptr : ℕ → Option ℕ
unfolding try_from_ptr
ref_try_from_ptr p = try_from_ptr p

unfoldable pub val : ℕ → Shared → ZVal
val p s = s.vals p

-- A write through the reference that `val_mut` gives.
unfoldable pub val_mut : ℕ → (ZVal → ZVal) → Shared → Shared
val_mut p f s = record s { vals = λ q. if q == p then f (s.vals q) else s.vals q }

-- `debug_struct(name)` with one field.
pub record DebugStruct (A : Type 0) : Type 0 where
  pub name : List ℕ
  pub field : A

unfoldable pub fmt_ref : ⦃php : PhpTypes⦄ → ℕ → Shared → Outcome (DebugStruct (Option DebugField))
unfolding val fmt
fmt_ref p s = do field ← fmt (val p s); returns (record { name = bytes "ZRef"; field = field })

unfoldable pub res_from_ptr : ℕ → Outcome ℕ
unfolding Union.from_ptr
res_from_ptr p = Union.from_ptr p

unfoldable pub res_try_from_ptr : ℕ → Option ℕ
unfolding try_from_ptr
res_try_from_ptr p = try_from_ptr p

unfoldable pub res_handle : ℕ → Shared → ℤ
res_handle p s = s.handles p

unfoldable pub fmt_res : ℕ → Shared → DebugStruct ℤ
unfolding res_handle
fmt_res p s = record { name = bytes "ZRes"; field = res_handle p s }

-- A write to a reference is what every holder of it reads, and no other reference changes.
val-val_mut :
    (p q : ℕ) (f : ZVal → ZVal) (s : Shared)
    → (val p (val_mut p f s) ≡ f (val p s))
      × (val q (val_mut p f s) ≡ (if q == p then f (val q s) else val q s))
unfolding val val_mut
val-val_mut p q f s = (rw ==-self refl, refl)
