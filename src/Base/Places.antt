-- ===== src/Base/Places.antt =====
-- Lists of owners, by the places that they point at: taking one out, counting, and what they read.
use phper.Base.{
  ℕ, zero, suc, ◌<◌, ◌≡◌, refl, ap, Bool-cases, inl, inr, none, some, List, [], ◌∷◌, map, arith,
  get_elem?, ◌==◌, if◌then◌else◌,
}
use mathlib.Core.Option

abbrev pub without {ℓ} : {A : Type ℓ} → ℕ → List A → List A
without i [] = []
without zero (x ∷ xs) = xs
without (suc i) (x ∷ xs) = x ∷ without i xs

abbrev pub count : ℕ → List ℕ → ℕ
count q [] = 0
count q (p ∷ rest) = if q == p then suc (count q rest) else count q rest

-- Taking out an owner of `p` takes one off the count of `p` and of no other.
pub count-without :
    (owners : List ℕ) (i p q : ℕ)
    → get_elem? owners i ≡ some p
    → count q owners
      ≡ (if q == p then suc (count q (without i owners)) else count q (without i owners))
count-without [] zero p q at_i = absurd (cc)
count-without [] (suc i) p q at_i = absurd (cc)
count-without (x ∷ rest) zero p q at_i = ground arith
count-without (x ∷ rest) (suc i) p q at_i = ground (arith, count-without rest i p q at_i)

pub count_positive : (owners : List ℕ) (i p : ℕ) → get_elem? owners i ≡ some p → 0 < count p owners
count_positive owners i p at_i = ground (arith, count-without owners i p p at_i)

module _ {A B : Type 0} where
  pub get_elem?-map_view :
      (f : B → A) (owners : List B) (i : ℕ)
      → get_elem? (map f owners) i ≡ Option.map f (get_elem? owners i)
  get_elem?-map_view f [] zero = refl
  get_elem?-map_view f [] (suc i) = refl
  get_elem?-map_view f (x ∷ rest) zero = refl
  get_elem?-map_view f (x ∷ rest) (suc i) = get_elem?-map_view f rest i

  pub map-without :
      (f : B → A) (owners : List B) (i : ℕ) → map f (without i owners) ≡ without i (map f owners)
  map-without f [] zero = refl
  map-without f [] (suc i) = refl
  map-without f (x ∷ rest) zero = refl
  map-without f (x ∷ rest) (suc i) = ap (λ l. f x ∷ l) (map-without f rest i)

module _ {A : Type 0} where
  -- Views that agree on all owners give the same list.
  pub map_agree :
      (f g : ℕ → A) (owners : List ℕ)
      → ((q : ℕ) → 0 < count q owners → f q ≡ g q)
      → map f owners ≡ map g owners
  map_agree f g [] h = refl
  map_agree f g (x ∷ rest) h =
      rw
        (
          h x (ground arith),
          map_agree f g rest (λ q there.
              h q (elim (Bool-cases (q == x)) [ inl e ↦ rw e (omega arith) | inr e ↦ rw e there ])),
        )
        refl

  pub without_past : (xs : List A) (i : ℕ) → get_elem? xs i ≡ none → without i xs ≡ xs
  without_past [] i at_i = refl
  without_past (x ∷ rest) zero at_i = absurd (cc)
  without_past (x ∷ rest) (suc i) at_i = ap (λ l. x ∷ l) (without_past rest i at_i)
