-- ===== src/Arrays/Table.antt =====
-- The engine's hash table as phper/src/arrays.rs uses it, and what PHP documents of it: a table is a
-- list of entries in order of insertion, with distinct keys, and a string that is a decimal number
-- in PHP's normal form stands for that number in the `zend_symtable_*` functions.
use phper.Base.{
  ℕ, ◌+◌, ◌≤◌, ◌<◌, ◌≡◌, Bool, true, false, Option, none, some, List, [], ◌∷◌, length, is_some,
  bytes_eq, ◌==◌, if◌then◌else◌, get_elem?, arith, bytes_eq_refl, eq_of_bytes_eq, ap,
}
use phper.Values.Union.{ZVal}

pub data HashKey : Type 0 where
  number : ℕ → HashKey
  text : List ℕ → HashKey

abbrev pub key_eq : HashKey → HashKey → Bool
key_eq (number i) (number j) = i == j
key_eq (number i) (text t) = false
key_eq (text s) (number j) = false
key_eq (text s) (text t) = bytes_eq s t

pub key_eq_refl : (k : HashKey) → key_eq k k ≡ true
key_eq_refl (number i) = ground arith
key_eq_refl (text s) = bytes_eq_refl s

pub eq_of_key_eq : (k j : HashKey) → key_eq k j ≡ true → k ≡ j
eq_of_key_eq (number i) (number j) h = ground arith
eq_of_key_eq (number i) (text t) h = ground arith
eq_of_key_eq (text s) (number j) h = ground arith
eq_of_key_eq (text s) (text t) h = ap text (eq_of_bytes_eq s t h)

abbrev pub Assoc : Type 0
Assoc = List (HashKey × ZVal)

abbrev pub lookup : HashKey → Assoc → Option ZVal
lookup k [] = none
lookup k ((j, v) ∷ rest) = if key_eq j k then some v else lookup k rest

-- A key that is there keeps its place; another goes to the end.
abbrev pub put : HashKey → ZVal → Assoc → Assoc
put k v [] = (k, v) ∷ []
put k v ((j, w) ∷ rest) = if key_eq j k then (j, v) ∷ rest else (j, w) ∷ put k v rest

abbrev pub erase : HashKey → Assoc → Assoc
erase k [] = []
erase k ((j, w) ∷ rest) = if key_eq j k then rest else (j, w) ∷ erase k rest

abbrev pub Nodup : Assoc → Type 0
Nodup [] = Unit
Nodup ((j, w) ∷ rest) = (lookup j rest ≡ none) × Nodup rest

-- The key of a string in the `zend_symtable_*` functions.
abbrev pub symbol : (List ℕ → Option ℕ) → List ℕ → HashKey
symbol numeric s = elim (numeric s) [ none ↦ text s | some i ↦ number i ]

-- What `zend_hash_get_current_key_ex` reports.
pub data CurrentKey : Type 0 where
  is_string : List ℕ → CurrentKey
  is_long : ℕ → CurrentKey
  non_existent : CurrentKey

abbrev pub key_at : Option (HashKey × ZVal) → CurrentKey
key_at none = non_existent
key_at (some (number i, v)) = is_long i
key_at (some (text s, v)) = is_string s

abbrev pub value_at : Option (HashKey × ZVal) → Option ZVal
value_at none = none
value_at (some (k, v)) = some v

pub record ZendHash (T : Type 0) : Type 0 where
  pub count : T → ℕ
  pub new_array : ℕ → T
  pub next_index_insert : T → ZVal → Option T
  pub index_find : T → ℕ → Option ZVal
  pub index_update : T → ℕ → ZVal → T
  pub index_exists : T → ℕ → Bool
  pub index_del : T → ℕ → T × Bool
  -- `*p = v` for the pointer that `index_find` or `symtable_str_find` returns.
  pub index_store : T → ℕ → ZVal → T
  pub symtable_str_store : T → List ℕ → ZVal → T
  pub symtable_str_find : T → List ℕ → Option ZVal
  pub symtable_str_update : T → List ℕ → ZVal → T
  pub symtable_str_exists : T → List ℕ → Bool
  pub symtable_str_del : T → List ℕ → T × Bool
  -- `zend_hash_internal_pointer_reset_ex`, `zend_hash_get_current_key_ex`,
  -- `zend_hash_get_current_data_ex`, `zend_hash_move_forward_ex` (`none` is `FAILURE`).
  pub pointer_reset : T → ℕ
  pub current_key : T → ℕ → CurrentKey
  pub current_data : T → ℕ → Option ZVal
  pub move_forward : T → ℕ → Option ℕ

-- PHP's documented behaviour. `numeric` is the number that a string of digits stands for.
pub record IsZendHash {T : Type 0} (hash : ZendHash T) : Type 0 where
  pub entries : T → Assoc
  pub numeric : List ℕ → Option ℕ
  pub nodup : (t : T) → Nodup (entries t)
  pub count_eq : (t : T) → hash.count t ≡ length (entries t)
  pub new_eq : (n : ℕ) → entries (hash.new_array n) ≡ []
  pub index_find_eq : (t : T) (i : ℕ) → hash.index_find t i ≡ lookup (number i) (entries t)
  pub index_update_eq :
      (t : T) (i : ℕ) (v : ZVal) → entries (hash.index_update t i v) ≡ put (number i) v (entries t)
  pub index_exists_eq :
      (t : T) (i : ℕ) → hash.index_exists t i ≡ is_some (lookup (number i) (entries t))
  pub index_del_eq : (t : T) (i : ℕ) → entries (hash.index_del t i).0 ≡ erase (number i) (entries t)
  pub index_del_found :
      (t : T) (i : ℕ) → (hash.index_del t i).1 ≡ is_some (lookup (number i) (entries t))
  pub str_find_eq :
      (t : T) (s : List ℕ) → hash.symtable_str_find t s ≡ lookup (symbol numeric s) (entries t)
  pub str_update_eq :
      (t : T) (s : List ℕ) (v : ZVal)
      → entries (hash.symtable_str_update t s v) ≡ put (symbol numeric s) v (entries t)
  pub str_exists_eq :
      (t : T) (s : List ℕ)
      → hash.symtable_str_exists t s ≡ is_some (lookup (symbol numeric s) (entries t))
  pub str_del_eq :
      (t : T) (s : List ℕ)
      → entries (hash.symtable_str_del t s).0 ≡ erase (symbol numeric s) (entries t)
  pub str_del_found :
      (t : T) (s : List ℕ)
      → (hash.symtable_str_del t s).1 ≡ is_some (lookup (symbol numeric s) (entries t))
  -- A store through the pointer that a search returned changes the value of that entry.
  pub index_store_eq :
      (t : T) (i : ℕ) (v : ZVal)
      → is_some (lookup (number i) (entries t)) ≡ true
      → entries (hash.index_store t i v) ≡ put (number i) v (entries t)
  pub str_store_eq :
      (t : T) (s : List ℕ) (v : ZVal)
      → is_some (lookup (symbol numeric s) (entries t)) ≡ true
      → entries (hash.symtable_str_store t s v) ≡ put (symbol numeric s) v (entries t)
  -- The next index is a number that is no key; there is none when the numbers are used up.
  pub next_index : T → ℕ
  pub next_fresh : (t : T) → lookup (number (next_index t)) (entries t) ≡ none
  pub next_insert_eq :
      (t t' : T) (v : ZVal)
      → hash.next_index_insert t v ≡ some t'
      → entries t' ≡ put (number (next_index t)) v (entries t)
  -- `rank` is the number of entries in front of a position.
  pub rank : T → ℕ → ℕ
  pub reset_rank : (t : T) → rank t (hash.pointer_reset t) ≡ 0
  pub key_eq_at : (t : T) (p : ℕ) → hash.current_key t p ≡ key_at (get_elem? (entries t) (rank t p))
  pub data_eq_at :
      (t : T) (p : ℕ) → hash.current_data t p ≡ value_at (get_elem? (entries t) (rank t p))
  pub forward_some :
      (t : T) (p : ℕ)
      → rank t p < length (entries t)
      → (q : ℕ) × (hash.move_forward t p ≡ some q) × (rank t q ≡ rank t p + 1)
  pub forward_none : (t : T) (p : ℕ) → length (entries t) ≤ rank t p → hash.move_forward t p ≡ none
