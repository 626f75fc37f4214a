-- ===== src/Arrays/Access.antt =====
-- Insert, get, exists and remove of phper/src/arrays.rs against the entries of the engine's table.
use phper.Base.{
  ℕ, suc, ◌^◌, ◌<◌, ◌≡◌, refl, ap, sym, ◌∙◌, Bool, Option, none, some, List, returns, arith,
  if◌then◌else◌, length, is_some,
}
use phper.Values.Union.{ZVal}
use phper.Strings.Length.{to_bytes_small}
use phper.Arrays.Table.{HashKey, number, key_eq, lookup, put, erase, symbol, ZendHash, IsZendHash}
use phper.Arrays.Assoc.{lookup-put, lookup-erase, length-put, length-erase}
use phper.Arrays.{Key, InsertKey, to_insert_key, len, insert, inner_get, get, exists, remove}

-- A `ZStr` of fewer than 2^31 bytes; no condition on the other keys.
abbrev pub IsShort : Key → Type 0
IsShort (Key.z_str s) = length s < 2 ^ 31
IsShort _ = Unit

-- The key under which the engine keeps an item.
abbrev pub hash_key : (List ℕ → Option ℕ) → Key → HashKey
hash_key numeric (Key.index i) = number i
hash_key numeric (Key.str s) = symbol numeric s
hash_key numeric (Key.bytes b) = symbol numeric b
hash_key numeric (Key.z_str s) = symbol numeric s

module _ {T : Type 0} (hash : ZendHash T) (is : IsZendHash hash) where
  abbrev at : Key → HashKey
  at = hash_key is.numeric

  pub get-lookup :
      (k : Key) (t : T) → IsShort k → get hash k t ≡ returns (lookup (at k) (is.entries t))
  unfolding get inner_get
  get-lookup (Key.index i) t h = ap returns (is.index_find_eq t i)
  get-lookup (Key.str s) t h = ap returns (is.str_find_eq t s)
  get-lookup (Key.bytes b) t h = ap returns (is.str_find_eq t b)
  get-lookup (Key.z_str s) t h = rw (to_bytes_small s h) (ap returns (is.str_find_eq t s))

  pub exists-lookup :
      (k : Key) (t : T)
      → IsShort k
      → exists hash k t ≡ returns (is_some (lookup (at k) (is.entries t)))
  unfolding exists
  exists-lookup (Key.index i) t h = ap returns (is.index_exists_eq t i)
  exists-lookup (Key.str s) t h = ap returns (is.str_exists_eq t s)
  exists-lookup (Key.bytes b) t h = ap returns (is.str_exists_eq t b)
  exists-lookup (Key.z_str s) t h = rw (to_bytes_small s h) (ap returns (is.str_exists_eq t s))

  pub insert-put :
      (k : Key) (v : ZVal) (t : T)
      → IsShort k
      → (t' : T) × (insert hash (to_insert_key k) v t ≡ returns t')
        × (is.entries t' ≡ put (at k) v (is.entries t))
  unfolding insert to_insert_key
  insert-put (Key.index i) v t h = (hash.index_update t i v, refl, is.index_update_eq t i v)
  insert-put (Key.str s) v t h = (hash.symtable_str_update t s v, refl, is.str_update_eq t s v)
  insert-put (Key.bytes b) v t h = (hash.symtable_str_update t b v, refl, is.str_update_eq t b v)
  insert-put (Key.z_str s) v t h =
      (hash.symtable_str_update t s v, rw (to_bytes_small s h) refl, is.str_update_eq t s v)

  pub remove-erase :
      (k : Key) (t : T)
      → IsShort k
      → (t' : T) × (remove hash k t ≡ returns (t', is_some (lookup (at k) (is.entries t))))
        × (is.entries t' ≡ erase (at k) (is.entries t))
  unfolding remove
  remove-erase (Key.index i) t h = (
    (hash.index_del t i).0,
    ap (λ b. returns ((hash.index_del t i).0, b)) (is.index_del_found t i),
    is.index_del_eq t i,
  )
  remove-erase (Key.str s) t h = (
    (hash.symtable_str_del t s).0,
    ap (λ b. returns ((hash.symtable_str_del t s).0, b)) (is.str_del_found t s),
    is.str_del_eq t s,
  )
  remove-erase (Key.bytes b) t h = (
    (hash.symtable_str_del t b).0,
    ap (λ f. returns ((hash.symtable_str_del t b).0, f)) (is.str_del_found t b),
    is.str_del_eq t b,
  )
  remove-erase (Key.z_str s) t h = (
    (hash.symtable_str_del t s).0,
    rw (to_bytes_small s h)
        (ap (λ b. returns ((hash.symtable_str_del t s).0, b)) (is.str_del_found t s)),
    is.str_del_eq t s,
  )

module _ {T : Type 0} (hash : ZendHash T) (is : IsZendHash hash) (k j : Key) (t : T)
    (short : IsShort k) (short' : IsShort j) where
  -- Inserting under a key that is not too long gives an array in which a get with an equal key returns
  -- the value and a get with any other key what it returned before; the array is one longer if the
  -- key was not there, and else as long as before. Keys are equal where the engine's are: a string of
  -- a decimal number is that number.
  pub get-insert :
      (v : ZVal)
      → (t' : T) × (insert hash (to_insert_key k) v t ≡ returns t')
        × (get hash j t' ≡ (
            if key_eq (hash_key is.numeric k) (hash_key is.numeric j)
            then returns (some v)
            else get hash j t))
        × (len hash t' ≡ (
            if is_some (lookup (hash_key is.numeric k) (is.entries t))
            then len hash t
            else suc (len hash t)))
  unfolding len
  get-insert v =
      let (t', done, is') = insert-put hash is k v t short in
      (
        t',
        done,
        rw (get-lookup hash is j t' short', get-lookup hash is j t short')
            (rw (is', lookup-put) (ground arith)),
        rw (is.count_eq t', is.count_eq t) (rw (is', length-put) refl),
      )

  -- Removing says whether the key was there, as `exists` does; a get with an equal key then finds
  -- nothing, and a get with any other key what it found before; the array is shorter by one exactly if
  -- the key was there.
  pub get-remove :
      (t' : T) × (b : Bool) × (remove hash k t ≡ returns (t', b))
      × (exists hash k t ≡ returns b)
      × (get hash j t' ≡ (
          if key_eq (hash_key is.numeric k) (hash_key is.numeric j)
          then returns none
          else get hash j t))
      × (len hash t ≡ (if b then suc (len hash t') else len hash t'))
  unfolding len
  get-remove =
      let (t', done, is') = remove-erase hash is k t short in
      (
        t',
        is_some (lookup (hash_key is.numeric k) (is.entries t)),
        done,
        exists-lookup hash is k t short,
        rw (get-lookup hash is j t' short', get-lookup hash is j t short')
            (rw (is', lookup-erase _ _ _ (is.nodup t)) (ground arith)),
        rw (is.count_eq t', is.count_eq t) (rw is' (length-erase _ _)),
      )

-- `42` and `"42"` are the same key: a string that PHP reads as a number gives the same answers as the
-- number in `get` and `exists`, and inserting or removing under either leaves the same entries.
pub numeric_key :
    {T : Type 0} (hash : ZendHash T) (is : IsZendHash hash) (s : List ℕ) (i : ℕ) (v : ZVal) (t : T)
    → is.numeric s ≡ some i
    → (get hash (Key.str s) t ≡ get hash (Key.index i) t)
      × (exists hash (Key.str s) t ≡ exists hash (Key.index i) t)
      × ((t₁ : T) × (t₂ : T) × (insert hash (InsertKey.str s) v t ≡ returns t₁)
          × (insert hash (InsertKey.index i) v t ≡ returns t₂)
          × (is.entries t₁ ≡ is.entries t₂))
      × ((t₁ : T) × (t₂ : T) × (b : Bool) × (remove hash (Key.str s) t ≡ returns (t₁, b))
          × (remove hash (Key.index i) t ≡ returns (t₂, b))
          × (is.entries t₁ ≡ is.entries t₂))
unfolding to_insert_key
numeric_key hash is s i v t h =
    let same : symbol is.numeric s ≡ number i = rw (h, symbol) refl in
    let l = is.entries t in
    let (t₁, ins₁, e₁) = insert-put hash is (Key.str s) v t tt in
    let (t₂, ins₂, e₂) = insert-put hash is (Key.index i) v t tt in
    let (u₁, rem₁, f₁) = remove-erase hash is (Key.str s) t tt in
    let (u₂, rem₂, f₂) = remove-erase hash is (Key.index i) t tt in
    (
      rw (get-lookup hash is (Key.str s) t tt, get-lookup hash is (Key.index i) t tt)
          (ap (λ k. returns (lookup k l)) same),
      rw (exists-lookup hash is (Key.str s) t tt, exists-lookup hash is (Key.index i) t tt)
          (ap (λ k. returns (is_some (lookup k l))) same),
      (t₁, t₂, ins₁, ins₂, e₁ ∙ ap (λ k. put k v l) same ∙ sym e₂),
      (
        u₁,
        u₂,
        is_some (lookup (number i) l),
        rem₁ ∙ ap (λ k. returns (u₁, is_some (lookup k l))) same,
        rem₂,
        f₁ ∙ ap (λ k. erase k l) same ∙ sym f₂,
      ),
    )
