-- ===== src/Arrays/Examples.antt =====
-- An array with two items in phper/src/arrays.rs.
use phper.Base.{◌⊎◌, ◌>>=◌, suc, ◌≡◌, refl, pos, none, some, [], ◌∷◌, returns, arith, bytes}
use phper.Values.Union.{ZVal, long}
use phper.Arrays.{Key, InsertKey, len, insert, get, to_insert_key}
use phper.Arrays.Table.{number, text}
use phper.Arrays.Access.{get-insert}
use phper.Arrays.Push.{insert-next_index}
use phper.Arrays.Refinement.{removes, or_inserts, apply_all, apply_all-change_all}
use phper.Arrays.Entry.{entry, and_modify, or_insert}
use phper.Arrays.Entry.Upsert.{or_insert-and_modify}
use phper.Arrays.Iter.{IterKey, iter, next}
use phper.Arrays.Iteration.{collect, iter-entries}
use phper.Samples.Hash.{Table, hash8, hash8-IsZendHash}

abbrev five : ZVal
five = record { type_info = 4; value = long (pos 5) }

abbrev six : ZVal
six = record { type_info = 4; value = long (pos 6) }

-- `[4 => 5, "a" => 6]`.
abbrev two_items : Table
two_items = ((number 4, five) ∷ (text (bytes "a"), six) ∷ [], (refl, (refl, tt)))

-- `"4"` is the key 4.
get-insert_example :
    (t : Table) × (insert hash8 (to_insert_key (Key.str (bytes "4"))) six two_items ≡ returns t)
    × (get hash8 (Key.index 4) t ≡ returns (some six))
    × (len hash8 t ≡ len hash8 two_items)
get-insert_example =
    get-insert hash8 hash8-IsZendHash (Key.str (bytes "4")) (Key.index 4) two_items tt tt six

iter-entries_example :
    ((collect hash8 3 (iter hash8 two_items)).0
      ≡ (IterKey.index 4, five) ∷ (IterKey.z_str (bytes "a"), six) ∷ [])
    × (next hash8 (collect hash8 3 (iter hash8 two_items)).1
        ≡ (none, (collect hash8 3 (iter hash8 two_items)).1))
iter-entries_example = iter-entries hash8 hash8-IsZendHash two_items 3 (omega arith)

or_insert-and_modify_example :
    (t : Table) × ((entry hash8 (Key.index 4) two_items
        >>= and_modify hash8 (λ x. returns six)
        >>= or_insert hash8 five)
      ≡ returns (t, six))
    × (t.0 ≡ (number 4, six) ∷ (text (bytes "a"), six) ∷ [])
or_insert-and_modify_example =
    or_insert-and_modify hash8 hash8-IsZendHash (Key.index 4) (λ x. six) five two_items tt

insert-next_index_example :
    ((t : Table) × (insert hash8 InsertKey.next_index six two_items ≡ returns t)
      × (len hash8 t ≡ suc (len hash8 two_items))
      × (get hash8 (Key.index 5) t ≡ returns (some six)))
    ⊎ ((hash8.next_index_insert two_items six ≡ none)
        × (insert hash8 InsertKey.next_index six two_items ≡ returns two_items))
insert-next_index_example = insert-next_index hash8 hash8-IsZendHash six two_items (Key.index 5) tt

apply_all-change_all_example :
    (t : Table) × (apply_all hash8
        (removes (Key.index 4) ∷ or_inserts (Key.str (bytes "b")) five ∷ [])
        two_items
      ≡ returns t)
    × (t.0 ≡ (text (bytes "a"), six) ∷ (text (bytes "b"), five) ∷ [])
    × (get hash8 (Key.bytes (bytes "b")) t ≡ returns (some five))
apply_all-change_all_example =
    apply_all-change_all hash8 hash8-IsZendHash
      (removes (Key.index 4) ∷ or_inserts (Key.str (bytes "b")) five ∷ []) two_items
      (Key.bytes (bytes "b")) (tt, (tt, tt)) tt
