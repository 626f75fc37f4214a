-- ===== src/Alloc/Examples.antt =====
-- A number in an `EBox` (phper-alloc/src/lib.rs).
use phper.Base.{ℕ, ◌≡◌, none, [], ◌∷◌, returns}
use phper.Alloc.{Heap, into_inner}
use phper.Alloc.Ownership.{boxed, into_inner-dropped}

abbrev empty : Heap ℕ
empty = record { cells = λ p. none; dropped = [] }

into_inner-dropped_example :
    (h : Heap ℕ) × (into_inner 100 (boxed 100 42 empty) ≡ returns (42, h)) × (h.dropped ≡ 42 ∷ [])
into_inner-dropped_example = into_inner-dropped 100 42 empty
