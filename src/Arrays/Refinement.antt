-- ===== src/Arrays/Refinement.antt =====
-- Any sequence of changes to a `ZArr` (phper/src/arrays.rs) does to the entries of the table what the
-- same changes do to an association list.
use phper.Base.{ℕ, ◌≡◌, refl, ap, ◌∙◌, Option, List, [], ◌∷◌, Outcome, returns, ◌>>=◌}
use phper.Values.Union.{ZVal}
use phper.Arrays.{Key, insert, remove, get, to_insert_key}
use phper.Arrays.Table.{Assoc, ZendHash, IsZendHash, lookup, put, erase}
use phper.Arrays.Access.{IsShort, hash_key, get-lookup, insert-put, remove-erase}
use phper.Arrays.Entry.{entry, or_insert}
use phper.Arrays.Entry.Upsert.{or_else, or_insert-entry}

pub data Change : Type 0 where
  inserts : Key → ZVal → Change
  removes : Key → Change
  or_inserts : Key → ZVal → Change

abbrev pub key_of : Change → Key
key_of (inserts k v) = k
key_of (removes k) = k
key_of (or_inserts k v) = k

abbrev pub AllShort : List Change → Type 0
AllShort [] = Unit
AllShort (c ∷ rest) = IsShort (key_of c) × AllShort rest

module _ {T : Type 0} (hash : ZendHash T) where
  -- The change as the code makes it, its result forgotten.
  unfoldable pub apply : Change → T → Outcome T
  unfolding insert to_insert_key remove entry or_insert
  apply (inserts k v) t = insert hash (to_insert_key k) v t
  apply (removes k) t = do r ← remove hash k t; returns r.0
  apply (or_inserts k v) t = do r ← entry hash k t >>= or_insert hash v; returns r.0

  abbrev pub apply_all : List Change → T → Outcome T
  apply_all [] t = returns t
  apply_all (c ∷ rest) t = do t' ← apply c t; apply_all rest t'

module _ (numeric : List ℕ → Option ℕ) where
  abbrev pub change_entries : Change → Assoc → Assoc
  change_entries (inserts k v) l = put (hash_key numeric k) v l
  change_entries (removes k) l = erase (hash_key numeric k) l
  change_entries (or_inserts k v) l =
      put (hash_key numeric k) (or_else (lookup (hash_key numeric k) l) v) l

  abbrev pub change_all : List Change → Assoc → Assoc
  change_all [] l = l
  change_all (c ∷ rest) l = change_all rest (change_entries c l)

module _ {T : Type 0} (hash : ZendHash T) (is : IsZendHash hash) where
  apply_lem :
      (c : Change) (t : T)
      → IsShort (key_of c)
      → (t' : T) × (apply hash c t ≡ returns t')
        × (is.entries t' ≡ change_entries is.numeric c (is.entries t))
  unfolding apply
  apply_lem (inserts k v) t h = insert-put hash is k v t h
  apply_lem (removes k) t h =
      let (t', removed, is') = remove-erase hash is k t h in (t', rw removed refl, is')
  apply_lem (or_inserts k v) t h =
      let (t', inserted, is') = or_insert-entry hash is k v t h in
      (t', ap (λ o. o >>= λ r. returns r.0) inserted, is')

  -- Changes under keys that are not too long, made one after another, return an array whose entries are
  -- those of the association list after the same changes, so that a get, with a key that is
  -- not too long, finds what the list holds.
  pub apply_all-change_all :
      (l : List Change) (t : T) (k : Key)
      → AllShort l
      → IsShort k
      → (t' : T) × (apply_all hash l t ≡ returns t')
        × (is.entries t' ≡ change_all is.numeric l (is.entries t))
        × (get hash k t'
            ≡ returns (lookup (hash_key is.numeric k) (change_all is.numeric l (is.entries t))))
  apply_all-change_all [] t k h short = (t, refl, refl, get-lookup hash is k t short)
  apply_all-change_all (c ∷ rest) t k h short =
      let (t₁, applied, is₁) = apply_lem c t h.0 in
      let (t₂, all, is₂, found) = apply_all-change_all rest t₁ k h.1 short in
      let same = ap (change_all is.numeric rest) is₁ in
      (
        t₂,
        rw applied all,
        is₂ ∙ same,
        found ∙ ap (λ l. returns (lookup (hash_key is.numeric k) l)) same,
      )
