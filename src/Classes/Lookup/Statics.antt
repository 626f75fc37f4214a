-- ===== src/Classes/Lookup/Statics.antt =====
-- The static properties of a class (phper/src/classes.rs).
use phper.Base.{
  ℕ, ◌≡◌, ◌≢◌, refl, false, Bool-cases, inl, inr, none, some, List, arith, ◌==◌, ==-self,
  if◌then◌else◌,
}
use phper.Values.Union.{ZVal, try_from_ptr}
use phper.Classes.Lookup.{
  Cells, get_static_property, set_static_property, inner_get_static_property, read_at, replace_at,
}

-- A write at one address is not seen at another.
read_at_elsewhere :
    (o n : ℕ) (val : ZVal) (cells : Cells)
    → o ≢ n
    → read_at (try_from_ptr o) (λ q. if q == n then val else cells q)
      ≡ read_at (try_from_ptr o) cells
unfolding read_at try_from_ptr
read_at_elsewhere o n val cells apart =
    let elsewhere : (o == n) ≡ false = ground arith in
    elim (Bool-cases (o == 0)) [
      | inl null ↦ rw null refl
      | inr there ↦ rw there (rw elsewhere refl)
    ]

module _ (property_ptr : List ℕ → ℕ) where
  -- `set_static_property` returns what `get_static_property` found. Afterwards a get with the name finds
  -- the new value if there is such a property, and else still nothing; and a get with the name of
  -- another property finds what it found before.
  pub get-set_static_property :
      (name other : List ℕ) (val : ZVal) (cells : Cells)
      → property_ptr other ≢ property_ptr name
      → ((set_static_property property_ptr name val cells).0
          ≡ get_static_property property_ptr name cells)
        × (get_static_property property_ptr name (set_static_property property_ptr name val cells).1
            ≡ (if property_ptr name == 0 then none else some val))
        × (get_static_property property_ptr other
              (set_static_property property_ptr name val cells).1
            ≡ get_static_property property_ptr other cells)
  unfolding get_static_property set_static_property inner_get_static_property try_from_ptr read_at
      replace_at
  get-set_static_property name other val cells apart = elim (Bool-cases (property_ptr name == 0)) [
    | inl null ↦ rw null (refl, refl, refl)
    | inr there ↦ rw there (
      refl,
      rw ==-self refl,
      read_at_elsewhere (property_ptr other) (property_ptr name) val cells apart,
    )
  ]
