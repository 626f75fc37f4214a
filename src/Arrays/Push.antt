-- ===== src/Arrays/Push.antt =====
-- Insert with the next index (phper/src/arrays.rs).
use phper.Base.{
  suc, ◌≡◌, refl, ◌⊎◌, inl, inr, none, some, Option-cases, returns, arith, if◌then◌else◌,
}
use phper.Values.Union.{ZVal}
use phper.Arrays.{Key, InsertKey, insert, push_next, get, len}
use phper.Arrays.Table.{number, key_eq, ZendHash, IsZendHash}
use phper.Arrays.Assoc.{lookup-put, length-put}
use phper.Arrays.Access.{IsShort, hash_key, get-lookup}

module _ {T : Type 0} (hash : ZendHash T) (is : IsZendHash hash) where
  -- Inserting with the next index returns: either the array is one longer, a get with the new index
  -- finds the value and a get with any other key, if it is not too long, what it found before; or the
  -- engine has no next index, and then the array is unchanged and the value is lost without an error.
  pub insert-next_index :
      (v : ZVal) (t : T) (k : Key)
      → IsShort k
      → ((t' : T) × (insert hash InsertKey.next_index v t ≡ returns t')
          × (len hash t' ≡ suc (len hash t))
          × (get hash k t' ≡ (
              if key_eq (number (is.next_index t)) (hash_key is.numeric k)
              then returns (some v)
              else get hash k t)))
        ⊎ ((hash.next_index_insert t v ≡ none) × (insert hash InsertKey.next_index v t ≡ returns t))
  unfolding insert push_next len
  insert-next_index v t k short = elim (Option-cases (hash.next_index_insert t v)) [
    | inl full ↦ inr (full, rw (full, push_next) refl)
    | inr (t', pushed) ↦
        let is' = is.next_insert_eq t t' v pushed in
        inl (
          t',
          rw (pushed, push_next) refl,
          rw (is.count_eq t', is.count_eq t) (rw (is', length-put) (rw (is.next_fresh t) refl)),
          rw (get-lookup hash is k t' short, get-lookup hash is k t short)
              (rw (is', lookup-put) (ground arith)),
        )
  ]
