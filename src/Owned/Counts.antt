-- ===== src/Owned/Counts.antt =====
-- The count of a string is the number of its owners: each operation of a `ZString` (phper/src/strings.rs).
use phper.Base.{
  ℕ, suc, ◌+◌, ◌^◌, ◌<◌, ◌≡◌, refl, ◌∙◌, ap, true, false, Bool-cases, Option, none, some, inl, inr,
  List, [], ◌∷◌, arith, length, ==_iff, ==-self, ◌==◌, ltb, if◌then◌else◌,
}
use phper.Base.Places.{count}
use phper.Owned.{StringMemory, IsStringMemory, ZendString, add_ref, del_ref, fresh_string}

-- Of a string with so many references in the engine's hands and so many owners in the extension's: it is
-- gone and there are none, or they are what it counts, or it is interned.
pub data Kept (held owned : ℕ) (z : Option ZendString) : Type 0 where
  gone : z ≡ none → held + owned ≡ 0 → Kept held owned z
  counted :
      (s : List ℕ)
      → z ≡ some (record { refs = held + owned; interned = false; bytes = s })
      → 0 < held + owned
      → length s < 2 ^ 31
      → Kept held owned z
  kept_interned :
      (n : ℕ) (s : List ℕ)
      → z ≡ some (record { refs = n; interned = true; bytes = s })
      → length s < 2 ^ 31
      → Kept held owned z

abbrev pub bytes_of : Option ZendString → List ℕ
bytes_of none = []
bytes_of (some z) = z.bytes

-- A string with an owner is there.
pub Kept-there :
    (held owned : ℕ) (z : Option ZendString)
    → Kept held owned z
    → 0 < held + owned
    → (y : ZendString) × (z ≡ some y) × (length y.bytes < 2 ^ 31)
Kept-there held owned z (gone e no_owner) some_left = absurd (omega arith)
Kept-there held owned z (counted s e p short) some_left = (_, e, short)
Kept-there held owned z (kept_interned n s e short) some_left = (_, e, short)

pub Kept-add_ref :
    (held owned : ℕ) (y : ZendString)
    → Kept held owned (some y)
    → Kept held (suc owned) (some (add_ref y))
Kept-add_ref held owned y (gone e no_owner) = absurd (cc)
Kept-add_ref held owned y (counted s e p short) = counted s (ground arith) (omega arith) short
Kept-add_ref held owned y (kept_interned n s e short) = kept_interned n s (ground arith) short

pub Kept-del_ref :
    (held owned : ℕ) (y : ZendString) → Kept held (suc owned) (some y) → Kept held owned (del_ref y)
Kept-del_ref held owned y (gone e no_owner) = absurd (omega arith)
Kept-del_ref held owned y (counted s e p short) = elim (Bool-cases (ltb 1 (held + (suc owned)))) [
  | inl more ↦ counted s (ground arith) (ground arith) short
  | inr last ↦ gone (ground arith) (ground arith)
]
Kept-del_ref held owned y (kept_interned n s e short) = kept_interned n s (ground arith) short

-- What is left of a string that still has an owner or is held has the same bytes.
pub bytes-del_ref :
    (held owned : ℕ) (y : ZendString)
    → Kept held (suc owned) (some y)
    → 0 < held + owned
    → bytes_of (del_ref y) ≡ y.bytes
bytes-del_ref held owned y (gone e no_owner) left = absurd (omega arith)
bytes-del_ref held owned y (counted s e p short) left = ground arith
bytes-del_ref held owned y (kept_interned n s e short) left = ground arith

bytes-add_ref : (y : ZendString) → bytes_of (some (add_ref y)) ≡ y.bytes
bytes-add_ref y = ground arith

module _ {M : Type 0} (mem : StringMemory M) (held : ℕ → ℕ) where
  abbrev pub Keeps : List ℕ → M → Type 0
  Keeps owners m = (q : ℕ) → Kept (held q) (count q owners) (mem.find m q)

  -- Strings that are held or owned have the same bytes in both memories.
  abbrev pub SameBytes : List ℕ → M → M → Type 0
  SameBytes owners m m' =
      (q : ℕ) → 0 < held q + count q owners → bytes_of (mem.find m' q) ≡ bytes_of (mem.find m q)

Kept-fresh :
    (held owned : ℕ) (s : List ℕ)
    → length s < 2 ^ 31
    → Kept held owned none
    → Kept held (suc owned) (some (fresh_string s))
Kept-fresh held owned s short (gone e no_owner) = counted s (ground arith) (omega arith) short
Kept-fresh held owned s short (counted t e p short') = absurd (cc)
Kept-fresh held owned s short (kept_interned n t e short') = absurd (cc)

-- A string that is not there has no owner and is not held.
none_left : (held owned : ℕ) → Kept held owned none → held + owned ≡ 0
none_left held owned (gone e no_owner) = no_owner
none_left held owned (counted t e p short') = absurd (cc)
none_left held owned (kept_interned n t e short') = absurd (cc)

module _ {M : Type 0} (mem : StringMemory M) (is : IsStringMemory mem) (held : ℕ → ℕ) where
  find-init-at :
      (s : List ℕ) (m : M) (q : ℕ)
      → (q == (mem.init s m).0) ≡ true
      → (mem.find (mem.init s m).1 q ≡ some (fresh_string s)) × (mem.find m q ≡ none)
  find-init-at s m q same =
      let at_new : q ≡ (mem.init s m).0 = (==_iff q (mem.init s m).0).0 same in
      (is.find-init s m q ∙ rw same refl, ap (mem.find m) at_new ∙ is.init_fresh s m)

  find-init-off :
      (s : List ℕ) (m : M) (q : ℕ)
      → (q == (mem.init s m).0) ≡ false
      → mem.find (mem.init s m).1 q ≡ mem.find m q
  find-init-off s m q other = is.find-init s m q ∙ rw other refl

  -- An owner more.
  pub Keeps-init :
      (s : List ℕ) (owners : List ℕ) (m : M)
      → length s < 2 ^ 31
      → Keeps mem held owners m
      → Keeps mem held ((mem.init s m).0 ∷ owners) (mem.init s m).1
        × (bytes_of (mem.find (mem.init s m).1 (mem.init s m).0) ≡ s)
        × SameBytes mem held owners m (mem.init s m).1
  Keeps-init s owners m short k = (
    λ q. elim (Bool-cases (q == (mem.init s m).0)) [
      | inl same ↦
          rw (same, (find-init-at s m q same).0)
            (Kept-fresh (held q) (count q owners) s short (rw (find-init-at s m q same).1 at (k q)))
      | inr other ↦ rw (other, find-init-off s m q other) (k q)
    ],
    rw (find-init-at s m (mem.init s m).0 (==-self (mem.init s m).0)).0 refl,
    λ q left. elim (Bool-cases (q == (mem.init s m).0)) [
      | inl same ↦
          let nothing : held q + count q owners ≡ 0 =
            none_left (held q) (count q owners) (rw (find-init-at s m q same).1 at (k q)) in
          absurd (omega arith)
      | inr other ↦ rw (find-init-off s m q other) refl
    ],
  )

  pub Keeps-copy :
      (p : ℕ) (owners : List ℕ) (m : M)
      → 0 < held p + count p owners
      → Keeps mem held owners m
      → Keeps mem held (p ∷ owners) (mem.copy p m).1
        × ((q : ℕ) → bytes_of (mem.find (mem.copy p m).1 q) ≡ bytes_of (mem.find m q))
  Keeps-copy p owners m left k =
      let (y, there, short) = Kept-there (held p) (count p owners) (mem.find m p) (k p) left in
      (
        λ q. elim (Bool-cases (q == p)) [
          | inl same ↦
              let here : mem.find m q ≡ some y = ap (mem.find m) ((==_iff q p).0 same) ∙ there in
              rw (is.find-copy p m y q there, same)
                (Kept-add_ref (held q) (count q owners) y (rw here at (k q)))
          | inr other ↦ rw (is.find-copy p m y q there, other) (k q)
        ],
        λ q. elim (Bool-cases (q == p)) [
          | inl same ↦
              let here : mem.find m q ≡ some y = ap (mem.find m) ((==_iff q p).0 same) ∙ there in
              rw (is.find-copy p m y q there, same, here) (bytes-add_ref y)
          | inr other ↦ rw (is.find-copy p m y q there, other) refl
        ],
      )

  -- `rest` is the owners but for one of `p`.
  pub Keeps-release :
      (p : ℕ) (owners rest : List ℕ) (m : M)
      → ((q : ℕ) → count q owners ≡ (if q == p then suc (count q rest) else count q rest))
      → Keeps mem held owners m
      → Keeps mem held rest (mem.release p m) × SameBytes mem held rest m (mem.release p m)
  Keeps-release p owners rest m one_less k =
      let owned : 0 < held p + count p owners = ground (arith, one_less p, ==-self p) in
      let (y, there, short) = Kept-there (held p) (count p owners) (mem.find m p) (k p) owned in
      let of_rest : (q : ℕ)
          → Kept (held q) (if q == p then suc (count q rest) else count q rest) (mem.find m q) =
        λ q. rw (one_less q) at (k q) in
      (
        λ q. elim (Bool-cases (q == p)) [
          | inl same ↦
              let here : mem.find m q ≡ some y = ap (mem.find m) ((==_iff q p).0 same) ∙ there in
              rw (is.find-release p m y q there, same)
                (Kept-del_ref (held q) (count q rest) y (rw (here, same) at (of_rest q)))
          | inr other ↦ rw (is.find-release p m y q there, other) (rw other at (of_rest q))
        ],
        λ q left. elim (Bool-cases (q == p)) [
          | inl same ↦
              let here : mem.find m q ≡ some y = ap (mem.find m) ((==_iff q p).0 same) ∙ there in
              rw (is.find-release p m y q there, same, here)
                (bytes-del_ref (held q) (count q rest) y (rw (here, same) at (of_rest q)) left)
          | inr other ↦ rw (is.find-release p m y q there, other) refl
        ],
      )
