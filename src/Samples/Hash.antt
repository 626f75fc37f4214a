-- ===== src/Samples/Hash.antt =====
-- A hash table that is a list of entries with distinct keys; a position is an index, and the strings
-- that stand for numbers are the single digits.
use phper.Base.{
  ℕ, suc, ◌+◌, ◌-◌, ◌≤◌, ◌<◌, ◌≡◌, refl, ap, sym, Bool, Option, none, some, List, [], ◌∷◌, length,
  is_some, ltb, leb, if◌then◌else◌, get_elem?, arith, Bool-cases, inl, inr, ◌&&◌,
}
use phper.Values.Union.{ZVal}
use phper.Arrays.Table.{
  HashKey, number, text, Assoc, key_eq, lookup, put, erase, Nodup, symbol, key_at, value_at,
  ZendHash, IsZendHash,
}
use phper.Arrays.Assoc.{lookup-put, lookup-erase, key_eq_symm}

abbrev pub Table : Type 0
Table = (l : Assoc) × Nodup l

pub Nodup-put : (k : HashKey) (v : ZVal) (l : Assoc) → Nodup l → Nodup (put k v l)
Nodup-put k v [] h = (refl, tt)
Nodup-put k v ((j, w) ∷ rest) h = elim (Bool-cases (key_eq j k)) [
  | inl same ↦ rw same h
  | inr other ↦
      rw other (ground (arith, lookup-put k j v rest, key_eq_symm k j, h.0), Nodup-put k v rest h.1)
]

pub Nodup-erase : (k : HashKey) (l : Assoc) → Nodup l → Nodup (erase k l)
Nodup-erase k [] h = tt
Nodup-erase k ((j, w) ∷ rest) h = elim (Bool-cases (key_eq j k)) [
  | inl same ↦ rw same h.1
  | inr other ↦
      rw other
        (ground (arith, lookup-erase k j rest h.1, key_eq_symm k j, h.0), Nodup-erase k rest h.1)
]

-- The least number above every number that is a key.
abbrev pub above : Assoc → ℕ
above [] = 0
above ((number i, v) ∷ rest) = let n = above rest in if leb n i then suc i else n
above ((text s, v) ∷ rest) = above rest

pub above_fresh : (l : Assoc) (n : ℕ) → above l ≤ n → lookup (number n) l ≡ none
above_fresh [] n h = refl
above_fresh ((number i, v) ∷ rest) n h = ground (arith, above_fresh rest n)
above_fresh ((text s, v) ∷ rest) n h = above_fresh rest n h

abbrev pub digit : List ℕ → Option ℕ
digit [] = none
digit (c ∷ []) = if leb 48 c && leb c 57 then some (c - 48) else none
digit (c ∷ d ∷ rest) = none

abbrev pub put_in : Table → HashKey → ZVal → Table
put_in t k v = (put k v t.0, Nodup-put k v t.0 t.1)

abbrev pub erase_in : Table → HashKey → Table × Bool
erase_in t k = ((erase k t.0, Nodup-erase k t.0 t.1), is_some (lookup k t.0))

abbrev pub hash8 : ZendHash Table
hash8 = record {
  count = λ t. length t.0;
  new_array = λ n. ([], tt);
  next_index_insert = λ t v. some (put_in t (number (above t.0)) v);
  index_find = λ t i. lookup (number i) t.0;
  index_update = λ t i v. put_in t (number i) v;
  index_exists = λ t i. is_some (lookup (number i) t.0);
  index_del = λ t i. erase_in t (number i);
  index_store = λ t i v. put_in t (number i) v;
  symtable_str_store = λ t s v. put_in t (symbol digit s) v;
  symtable_str_find = λ t s. lookup (symbol digit s) t.0;
  symtable_str_update = λ t s v. put_in t (symbol digit s) v;
  symtable_str_exists = λ t s. is_some (lookup (symbol digit s) t.0);
  symtable_str_del = λ t s. erase_in t (symbol digit s);
  pointer_reset = λ t. 0;
  current_key = λ t p. key_at (get_elem? t.0 p);
  current_data = λ t p. value_at (get_elem? t.0 p);
  move_forward = λ t p. if ltb p (length t.0) then some (p + 1) else none;
}

pub forward : (t : Table) (p : ℕ) → p < length t.0 → hash8.move_forward t p ≡ some (p + 1)
forward t p h = ground arith

pub stuck : (t : Table) (p : ℕ) → length t.0 ≤ p → hash8.move_forward t p ≡ none
stuck t p h = ground arith

pub pushed :
    (t t' : Table) (v : ZVal)
    → hash8.next_index_insert t v ≡ some t'
    → t'.0 ≡ put (number (above t.0)) v t.0
pushed t t' v h = ap (λ o. elim o [ none ↦ t'.0 | some u ↦ u.0 ]) (sym h)

abbrev pub hash8-IsZendHash : IsZendHash hash8
hash8-IsZendHash = record {
  entries = λ t. t.0;
  numeric = digit;
  nodup = λ t. t.1;
  count_eq = λ t. refl;
  new_eq = λ n. refl;
  index_find_eq = λ t i. refl;
  index_update_eq = λ t i v. refl;
  index_exists_eq = λ t i. refl;
  index_del_eq = λ t i. refl;
  index_del_found = λ t i. refl;
  str_find_eq = λ t s. refl;
  str_update_eq = λ t s v. refl;
  str_exists_eq = λ t s. refl;
  str_del_eq = λ t s. refl;
  str_del_found = λ t s. refl;
  index_store_eq = λ t i v h. refl;
  str_store_eq = λ t s v h. refl;
  next_index = λ t. above t.0;
  next_fresh = λ t. above_fresh t.0 (above t.0) (omega arith);
  next_insert_eq = pushed;
  rank = λ t p. p;
  reset_rank = λ t. refl;
  key_eq_at = λ t p. refl;
  data_eq_at = λ t p. refl;
  forward_some = λ t p h. (p + 1, forward t p h, refl);
  forward_none = λ t p h. stuck t p h;
}
