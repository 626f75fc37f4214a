-- ===== src/Alloc/Ownership.antt =====
-- Who drops the value of an `EBox` (phper-alloc/src/lib.rs).
use phper.Base.{
  ℕ, ◌≡◌, ◌≢◌, refl, false, none, some, ◌∷◌, returns, arith, ◌==◌, ==-self, if◌then◌else◌,
}
use phper.Alloc.{Heap, new, from_raw, into_raw, deref, drop_box, into_inner, read_cell, set_cell}

module _ {T : Type 0} where
  abbrev pub boxed : ℕ → T → Heap T → Heap T
  boxed p x h = record h { cells = λ q. if q == p then some x else h.cells q }

  read_lem : (p : ℕ) (x : T) (h : Heap T) → read_cell p (boxed p x h) ≡ returns (x, boxed p x h)
  unfolding read_cell
  read_lem p x h =
      let here : (if p == p then some x else h.cells p) ≡ some x = rw ==-self refl in
      rw (here, read_cell) refl

  -- A value of a type that is not empty, put into an `EBox`, is read back by `deref` and through its raw
  -- pointer; dropping the box drops the value once and leaves no value at the address.
  pub drop_box-new :
      (size fresh : ℕ) (x : T) (h : Heap T)
      → size ≢ 0
      → (h₁ h₂ : Heap T) × (new size fresh x h ≡ returns (fresh, h₁))
        × (deref fresh h₁ ≡ returns (x, h₁))
        × (deref (from_raw (into_raw fresh)) h₁ ≡ returns (x, h₁))
        × (drop_box fresh h₁ ≡ returns (tt, h₂))
        × (h₂.dropped ≡ x ∷ h.dropped)
        × (h₂.cells fresh ≡ none)
  unfolding new deref from_raw into_raw drop_box set_cell
  drop_box-new size fresh x h nonzero =
      let sized : (size == 0) ≡ false = ground arith in
      (
        boxed fresh x h,
        record {
          cells = λ q. if q == fresh then none else (boxed fresh x h).cells q;
          dropped = x ∷ h.dropped;
        },
        rw sized refl,
        read_lem fresh x h,
        read_lem fresh x h,
        rw (read_lem fresh x h) refl,
        refl,
        rw ==-self refl,
      )

  -- `into_inner` drops the value that it returns, so that a caller who drops it in turn drops it twice.
  pub into_inner-dropped :
      (p : ℕ) (x : T) (h : Heap T)
      → (h' : Heap T) × (into_inner p (boxed p x h) ≡ returns (x, h'))
        × (h'.dropped ≡ x ∷ h.dropped)
  unfolding into_inner drop_box set_cell
  into_inner-dropped p x h = (
    record { cells = λ q. if q == p then none else (boxed p x h).cells q; dropped = x ∷ h.dropped },
    rw (read_lem p x h, drop_box) (rw (read_lem p x h) refl),
    refl,
  )
