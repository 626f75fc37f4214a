-- ===== src/Arrays/Iteration.antt =====
-- The iterators of phper/src/arrays.rs yield the entries of the table, in order, and then nothing more.
use phper.Base.{
  ℕ, zero, suc, ◌+◌, ◌<◌, ◌≡◌, refl, ap, sym, ◌∙◌, Bool, true, false, Option, none, some, List, [],
  ◌∷◌, ◌++◌, map, append_assoc, arith, length, get_elem?, get_elem?-append, length-append,
}
use phper.Values.Union.{ZVal}
use phper.Arrays.Table.{HashKey, number, text, Assoc, ZendHash, IsZendHash, key_at, value_at}
use phper.Arrays.Iter.{IterKey, RawIter, iter, next}

-- What the iterator shows of an entry.
abbrev pub shown : HashKey × ZVal → IterKey × ZVal
shown (number i, v) = (IterKey.index i, v)
shown (text s, v) = (IterKey.z_str s, v)

-- An item in front of the items of the rounds that follow; a `None` is the end.
abbrev pub gather :
    {T : Type 0}
    → Option (IterKey × ZVal) × RawIter T
    → List (IterKey × ZVal) × RawIter T
    → List (IterKey × ZVal) × RawIter T
gather (none, it) more = ([], it)
gather (some x, it) more = (x ∷ more.0, more.1)

module _ {T : Type 0} (hash : ZendHash T) where
  -- `next` until it returns `None`, for at most so many rounds: the items and the iterator left.
  abbrev pub collect : ℕ → RawIter T → List (IterKey × ZVal) × RawIter T
  collect zero it = ([], it)
  collect (suc rounds) it = let r = next hash it in gather r (collect rounds r.1)

module _ {T : Type 0} (hash : ZendHash T) (is : IsZendHash hash) (t : T) where
  abbrev at : ℕ → Bool → RawIter T
  at pos finished = record { arr = t; pos = pos; finished = finished }

  -- In front of the entries `rest` stand as many as the rank of the position.
  entry_at :
      (pre rest : Assoc) (pos : ℕ)
      → is.entries t ≡ pre ++ rest
      → is.rank t pos ≡ length pre
      → get_elem? (is.entries t) (is.rank t pos) ≡ get_elem? rest 0
  entry_at pre rest pos split ranked =
      let here : is.rank t pos ≡ length pre + 0 = omega arith in
      rw (split, here) (get_elem?-append pre rest 0)

  next_end :
      (pre : Assoc) (pos : ℕ)
      → is.entries t ≡ pre ++ []
      → is.rank t pos ≡ length pre
      → next hash (at pos false) ≡ (none, at pos true)
  unfolding next
  next_end pre pos split ranked = rw (is.key_eq_at t pos, entry_at pre [] pos split ranked) refl

  inside :
      (pre rest : Assoc) (x : HashKey × ZVal) (pos : ℕ)
      → is.entries t ≡ pre ++ (x ∷ rest)
      → is.rank t pos ≡ length pre
      → is.rank t pos < length (is.entries t)
  inside pre rest x pos split ranked =
      omega (arith, ap length split, length-append pre (x ∷ rest), ranked)

  -- One step from an entry that the engine reports under `key`.
  next_entry :
      (pre rest : Assoc) (x : HashKey × ZVal) (pos : ℕ)
      → is.entries t ≡ pre ++ (x ∷ rest)
      → is.rank t pos ≡ length pre
      → (q : ℕ) × (next hash (at pos false) ≡ (some (shown x), at q false))
        × (is.rank t q ≡ length pre + 1)
  unfolding next
  next_entry pre rest (number i, v) pos split ranked =
      let found = entry_at pre ((number i, v) ∷ rest) pos split ranked in
      let key = is.key_eq_at t pos ∙ ap key_at found in
      let val = is.data_eq_at t pos ∙ ap value_at found in
      let (q, moved, rank) =
        is.forward_some t pos (inside pre rest (number i, v) pos split ranked) in
      (q, rw (key, val, moved) refl, rank ∙ ap (λ n. n + 1) ranked)
  next_entry pre rest (text s, v) pos split ranked =
      let found = entry_at pre ((text s, v) ∷ rest) pos split ranked in
      let key = is.key_eq_at t pos ∙ ap key_at found in
      let val = is.data_eq_at t pos ∙ ap value_at found in
      let (q, moved, rank) = is.forward_some t pos (inside pre rest (text s, v) pos split ranked) in
      (q, rw (key, val, moved) refl, rank ∙ ap (λ n. n + 1) ranked)

  collect_rest :
      (pre rest : Assoc) (pos fuel : ℕ)
      → is.entries t ≡ pre ++ rest
      → is.rank t pos ≡ length pre
      → length rest < fuel
      → (q : ℕ) × (collect hash fuel (at pos false) ≡ (map shown rest, at q true))
  collect_rest pre rest pos zero split ranked fuel = absurd (omega arith)
  collect_rest pre [] pos (suc fuel) split ranked enough =
      (pos, ap (λ r. gather r (collect hash fuel r.1)) (next_end pre pos split ranked))
  collect_rest pre (x ∷ rest) pos (suc fuel) split ranked enough =
      let (q, stepped, rank) = next_entry pre rest x pos split ranked in
      let (last, collected) =
        collect_rest (pre ++ (x ∷ [])) rest q fuel (split ∙ sym (append_assoc pre (x ∷ []) rest))
          (omega (arith, length-append pre (x ∷ []))) (omega arith) in
      (
        last,
        ap (λ r. gather r (collect hash fuel r.1)) stepped
            ∙ ap (λ more. gather (some (shown x), at q false) more) collected,
      )

  -- With more rounds than entries, `next` until `None` yields every entry once, in the order of the
  -- table, with its key and value; and from then on `next` returns `None` and changes nothing.
  pub iter-entries :
      (rounds : ℕ)
      → hash.count t < rounds
      → ((collect hash rounds (iter hash t)).0 ≡ map shown (is.entries t))
        × (next hash (collect hash rounds (iter hash t)).1
            ≡ (none, (collect hash rounds (iter hash t)).1))
  unfolding iter next
  iter-entries rounds enough =
      let (q, collected) =
        collect_rest [] (is.entries t) (hash.pointer_reset t) rounds refl (is.reset_rank t)
          (omega (arith, is.count_eq t)) in
      (rw collected refl, rw collected refl)
