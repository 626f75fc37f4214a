-- ===== src/Samples/Cells.antt =====
-- A memory that is a list of cells: the address of a cell is its place plus one, and a new cell goes to
-- the end.
use phper.Base.{
  ℕ, zero, suc, ◌≡◌, refl, Option, none, some, List, [], ◌∷◌, ◌++◌, length, arith, ◌==◌,
  if◌then◌else◌,
}

abbrev pub Cells : Type 0 → Type 0
Cells A = List (Option A)

module _ {A : Type 0} where
  abbrev pub at_place : Cells A → ℕ → Option A
  at_place [] i = none
  at_place (y ∷ rest) zero = y
  at_place (y ∷ rest) (suc i) = at_place rest i

  abbrev pub set_place : ℕ → Option A → Cells A → Cells A
  set_place i o [] = []
  set_place zero o (y ∷ rest) = o ∷ rest
  set_place (suc i) o (y ∷ rest) = y ∷ set_place i o rest

  abbrev pub find_cell : Cells A → ℕ → Option A
  find_cell m zero = none
  find_cell m (suc i) = at_place m i

  abbrev pub change : (A → Option A) → ℕ → Cells A → Cells A
  change f zero m = m
  change f (suc i) m = elim (at_place m i) [ none ↦ m | some z ↦ set_place i (f z) m ]

  pub past_end : (m : Cells A) → at_place m (length m) ≡ none
  past_end [] = refl
  past_end (y ∷ rest) = past_end rest

  at-append :
      (m : Cells A) (o : Option A) (i : ℕ)
      → at_place (m ++ (o ∷ [])) i ≡ (if i == length m then o else at_place m i)
  at-append [] o zero = refl
  at-append [] o (suc i) = ground arith
  at-append (y ∷ rest) o zero = ground arith
  at-append (y ∷ rest) o (suc i) = ground (arith, at-append rest o i)

  at-set :
      (m : Cells A) (o : Option A) (i : ℕ) (z : A) (j : ℕ)
      → at_place m i ≡ some z
      → at_place (set_place i o m) j ≡ (if j == i then o else at_place m j)
  at-set [] o zero z j e = absurd (cc)
  at-set [] o (suc i) z j e = absurd (cc)
  at-set (y ∷ rest) o zero z zero e = ground arith
  at-set (y ∷ rest) o zero z (suc j) e = ground arith
  at-set (y ∷ rest) o (suc i) z zero e = ground arith
  at-set (y ∷ rest) o (suc i) z (suc j) e = ground (arith, at-set rest o i z j e)

  pub find-append :
      (c : A) (m : Cells A) (q : ℕ)
      → find_cell (m ++ (some c ∷ [])) q ≡ (if q == suc (length m) then some c else find_cell m q)
  find-append c m zero = ground arith
  find-append c m (suc i) = ground (arith, at-append m (some c) i)

  find-set :
      (o : Option A) (i : ℕ) (m : Cells A) (z : A) (q : ℕ)
      → at_place m i ≡ some z
      → find_cell (set_place i o m) q ≡ (if q == suc i then o else find_cell m q)
  find-set o i m z zero e = ground arith
  find-set o i m z (suc j) e = ground (arith, at-set m o i z j e)

  pub find-change :
      (f : A → Option A) (p : ℕ) (m : Cells A) (z : A) (q : ℕ)
      → find_cell m p ≡ some z
      → find_cell (change f p m) q ≡ (if q == p then f z else find_cell m q)
  find-change f zero m z q e = absurd (cc)
  find-change f (suc i) m z q e =
      let changed : change f (suc i) m ≡ set_place i (f z) m = rw (e, change) refl in
      rw changed (find-set (f z) i m z q e)
