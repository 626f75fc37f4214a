-- ===== src/Arrays/Assoc.antt =====
-- The association lists by which the engine's tables (phper/src/arrays.rs) are described.
use phper.Base.{
  suc, ◌≡◌, refl, true, false, none, some, [], ◌∷◌, length, is_some, arith, if◌then◌else◌,
  Bool-cases, inl, inr, ap, ◌∙◌,
}
use phper.Values.Union.{ZVal}
use phper.Arrays.Table.{
  HashKey, Assoc, key_eq, key_eq_refl, eq_of_key_eq, lookup, put, erase, Nodup,
}

-- Two keys that equal a third are equal.
key_eq_trans : (i k j : HashKey) → key_eq i k ≡ true → key_eq i j ≡ key_eq k j
key_eq_trans i k j h = rw (eq_of_key_eq i k h) refl

pub key_eq_symm : (i j : HashKey) → key_eq i j ≡ true → key_eq j i ≡ true
key_eq_symm i j h = rw (eq_of_key_eq i j h) (key_eq_refl j)

-- Where `k` is `j` and `i` is not `k`, `i` is not `j`.
key_eq-exclusive : (i k j : HashKey) → key_eq i k ≡ false → key_eq k j ≡ true → key_eq i j ≡ false
key_eq-exclusive i k j h e = rw (← eq_of_key_eq k j e) h

pub lookup-put :
    (k j : HashKey) (v : ZVal) (l : Assoc)
    → lookup j (put k v l) ≡ (if key_eq k j then some v else lookup j l)
lookup-put k j v [] = refl
lookup-put k j v ((i, w) ∷ rest) = elim (Bool-cases (key_eq i k)) [
  | inl same ↦ rw same (rw (key_eq_trans i k j same) (ground arith))
  | inr other ↦ rw other (ground (arith, lookup-put k j v rest, key_eq-exclusive i k j))
]

pub lookup-erase :
    (k j : HashKey) (l : Assoc)
    → Nodup l
    → lookup j (erase k l) ≡ (if key_eq k j then none else lookup j l)
lookup-erase k j [] h = ground arith
lookup-erase k j ((i, w) ∷ rest) h = elim (Bool-cases (key_eq i k)) [
  | inl same ↦ elim (Bool-cases (key_eq k j)) [
    | inl hit ↦
        let at : i ≡ j = eq_of_key_eq i k same ∙ eq_of_key_eq k j hit in
        rw (same, hit) (rw (← at) h.0)
    | inr miss ↦ rw (same, miss) (rw (key_eq_trans i k j same) (rw miss refl))
  ]
  | inr other ↦ rw other (ground (arith, lookup-erase k j rest h.1, key_eq-exclusive i k j))
]

pub length-put :
    (k : HashKey) (v : ZVal) (l : Assoc)
    → length (put k v l) ≡ (if is_some (lookup k l) then length l else suc (length l))
length-put k v [] = refl
length-put k v ((i, w) ∷ rest) = ground (arith, length-put k v rest)

pub length-erase :
    (k : HashKey) (l : Assoc)
    → length l ≡ (if is_some (lookup k l) then suc (length (erase k l)) else length (erase k l))
length-erase k [] = refl
length-erase k ((i, w) ∷ rest) = ground (arith, length-erase k rest)

-- The value put is the value found, and putting it again changes nothing.
pub lookup-put_self : (k : HashKey) (v : ZVal) (l : Assoc) → lookup k (put k v l) ≡ some v
lookup-put_self k v l = rw lookup-put (rw (key_eq_refl k) refl)

-- Putting the value that is there changes nothing.
pub put-lookup : (k : HashKey) (v : ZVal) (l : Assoc) → lookup k l ≡ some v → put k v l ≡ l
put-lookup k v [] h = absurd (ground arith)
put-lookup k v ((i, w) ∷ rest) h = elim (Bool-cases (key_eq i k)) [
  | inl same ↦
      let here : some w ≡ some v = rw⁻¹ (ap (λ b. if b then some w else lookup k rest) same) h in
      rw same (ap (λ o. (i, o) ∷ rest) (ground arith))
  | inr other ↦ rw other (ap (λ l. (i, w) ∷ l) (put-lookup k v rest (ground arith)))
]
