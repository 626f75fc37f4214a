-- ===== src/Arrays/Entry/Upsert.antt =====
-- `entry` with `or_insert` and `and_modify` (phper/src/arrays.rs) against the entries of the table.
use phper.Base.{
  ◌≡◌, refl, ap, sym, ◌∙◌, true, Option, none, some, Option-cases, returns, ◌>>=◌, is_some, inl,
  inr,
}
use phper.Values.Union.{ZVal}
use phper.Strings.Length.{to_bytes_small}
use phper.Arrays.{Key, get, get_mut}
use phper.Arrays.Table.{ZendHash, IsZendHash, lookup, put}
use phper.Arrays.Assoc.{lookup-put_self, put-lookup}
use phper.Arrays.Access.{IsShort, hash_key, get-lookup, insert-put}
use phper.Arrays.Entry.{vacant, entry, entry_of, store, and_modify, or_insert}

abbrev pub or_else : {A : Type 0} → Option A → A → A
or_else none d = d
or_else (some a) d = a

module _ {T : Type 0} (hash : ZendHash T) (is : IsZendHash hash) where
  abbrev found : Key → T → Option ZVal
  found k t = lookup (hash_key is.numeric k) (is.entries t)

  entry_lem :
      (k : Key) (t : T) → IsShort k → entry hash k t ≡ returns (entry_of hash k t (found k t))
  unfolding entry get_mut get
  entry_lem k t h = rw (get-lookup hash is k t h) refl

  vacant_lem :
      (k : Key) (v : ZVal) (t : T)
      → IsShort k
      → (t' : T) × (or_insert hash v (vacant t k) ≡ returns (t', v))
        × (is.entries t' ≡ put (hash_key is.numeric k) v (is.entries t))
  unfolding or_insert get_mut get
  vacant_lem k v t h =
      let (t', put_in, is') = insert-put hash is k v t h in
      let there : found k t' ≡ some v =
        ap (lookup (hash_key is.numeric k)) is'
        ∙ lookup-put_self (hash_key is.numeric k) v (is.entries t) in
      (t', rw put_in (rw (get-lookup hash is k t' h) (rw there refl)), is')

  store_lem :
      (k : Key) (v : ZVal) (t : T)
      → IsShort k
      → is_some (found k t) ≡ true
      → (t' : T) × (store hash k v t ≡ returns t')
        × (is.entries t' ≡ put (hash_key is.numeric k) v (is.entries t))
  unfolding store
  store_lem (Key.index i) v t h there =
      (hash.index_store t i v, refl, is.index_store_eq t i v there)
  store_lem (Key.str s) v t h there =
      (hash.symtable_str_store t s v, refl, is.str_store_eq t s v there)
  store_lem (Key.bytes b) v t h there =
      (hash.symtable_str_store t b v, refl, is.str_store_eq t b v there)
  store_lem (Key.z_str s) v t h there =
      (hash.symtable_str_store t s v, rw (to_bytes_small s h) refl, is.str_store_eq t s v there)

  -- `entry(k).or_insert(v)` under a key that is not too long returns, and does not panic: it gives the
  -- value that was there, or else `v`, and the array is the same as before but for that value under
  -- the key.
  pub or_insert-entry :
      (k : Key) (v : ZVal) (t : T)
      → IsShort k
      → (t' : T) × ((entry hash k t >>= or_insert hash v)
          ≡ returns (t', or_else (lookup (hash_key is.numeric k) (is.entries t)) v))
        × (is.entries t'
            ≡ put
                (hash_key is.numeric k)
                (or_else (lookup (hash_key is.numeric k) (is.entries t)) v)
                (is.entries t))
  unfolding or_insert entry_of
  or_insert-entry k v t h = elim (Option-cases (found k t)) [
    | inl miss ↦
        let (t', done, is') = vacant_lem k v t h in
        (t', rw (entry_lem k t h) (rw miss done), rw miss is')
    | inr (old, hit) ↦
        (t, rw (entry_lem k t h) (rw hit refl), rw hit (sym (put-lookup _ old _ hit)))
  ]

  -- `entry(k).and_modify(f).or_insert(v)` under a key that is not too long, where `f` returns: the value
  -- that was there is changed by `f`, and one that was not is `v`; all other entries stay.
  pub or_insert-and_modify :
      (k : Key) (f : ZVal → ZVal) (v : ZVal) (t : T)
      → IsShort k
      → (t' : T) × ((entry hash k t >>= and_modify hash (λ x. returns (f x)) >>= or_insert hash v)
          ≡ returns (
            t',
            elim (lookup (hash_key is.numeric k) (is.entries t)) [ none ↦ v | some old ↦ f old ],
          ))
        × (is.entries t'
            ≡ put
                (hash_key is.numeric k)
                (elim (lookup (hash_key is.numeric k) (is.entries t)) [
                  | none ↦ v
                  | some old ↦ f old
                ])
                (is.entries t))
  unfolding or_insert and_modify entry_of
  or_insert-and_modify k f v t h = elim (Option-cases (found k t)) [
    | inl miss ↦
        let (t', done, is') = vacant_lem k v t h in
        (t', rw (entry_lem k t h) (rw miss done), rw miss is')
    | inr (old, hit) ↦
        let (t', stored, is') = store_lem k (f old) t h (rw hit refl) in
        (t', rw (entry_lem k t h) (rw hit (rw stored refl)), rw hit is')
  ]
