-- ===== src/Owned/Sharing.antt =====
-- Copies of a string value (phper/src/values.rs): `clone` copies the string, `ref_clone` shares it.
use phper.Base.{
  ℕ, ◌+◌, ◌<◌, ◌≡◌, ◌≢◌, refl, sym, ◌∙◌, ap, Bool-cases, inl, inr, true, false, none, some, List,
  returns, arith, ==_iff, ==-self, ◌==◌,
}
use phper.Types
use phper.Types.{PhpTypes}
use phper.Types.Predicates.{predicates_by_tag}
use phper.Values.Union.{get_type_info}
use phper.Values.From.{ZvalMacros, default, from_z_string}
use phper.Owned.{StringMemory, IsStringMemory, ZendString, del_ref, fresh_string}
use phper.Owned.Values.{ValueMemory, IsValueMemory, clone, ref_clone, drop_val, into_inner}

abbrev pub counted_string : ℕ → List ℕ → ZendString
counted_string n s = record { refs = n; interned = false; bytes = s }

del_ref-last : (s : List ℕ) → del_ref (counted_string 1 s) ≡ none
del_ref-last s = ground arith

del_ref-shared :
    (n : ℕ) (s : List ℕ) → 0 < n → del_ref (counted_string (n + 1) s) ≡ some (counted_string n s)
del_ref-shared n s h = ground arith

module _ {M : Type 0} (strings : StringMemory M) (is : IsStringMemory strings) where
  -- A reference that is taken and given back changes nothing.
  release-copy :
      (p : ℕ) (m : M) (n : ℕ) (s : List ℕ)
      → strings.find m p ≡ some (counted_string n s)
      → 0 < n
      → (x : ℕ) → strings.find (strings.release p (strings.copy p m).1) x ≡ strings.find m x
  release-copy p m n s e h x =
      let two : strings.find (strings.copy p m).1 p ≡ some (counted_string (n + 1) s) =
        is.find-copy p m (counted_string n s) p e ∙ rw ==-self refl in
      elim (Bool-cases (x == p)) [
        | inl same ↦
            rw (is.find-release p (strings.copy p m).1 (counted_string (n + 1) s) x two, same)
              (del_ref-shared n s h ∙ (sym e ∙ ap (strings.find m) (sym ((==_iff x p).0 same))))
        | inr other ↦
            rw
              (
                is.find-release p (strings.copy p m).1 (counted_string (n + 1) s) x two,
                is.find-copy p m (counted_string n s) x e,
                other,
              )
              refl
      ]

  -- So does a new string that is dropped.
  release-init :
      (s : List ℕ) (m : M) (x : ℕ)
      → strings.find (strings.release (strings.init s m).0 (strings.init s m).1) x
        ≡ strings.find m x
  release-init s m x =
      let q : ℕ = (strings.init s m).0 in
      let there : strings.find (strings.init s m).1 q ≡ some (fresh_string s) =
        is.find-init s m q ∙ rw ==-self refl in
      elim (Bool-cases (x == q)) [
        | inl same ↦
            rw (is.find-release q (strings.init s m).1 (fresh_string s) x there, same)
              (del_ref-last s
                ∙ (sym (is.init_fresh s m) ∙ ap (strings.find m) (sym ((==_iff x q).0 same))))
        | inr other ↦
            rw
              (
                is.find-release q (strings.init s m).1 (fresh_string s) x there,
                is.find-init s m x,
                other,
              )
              refl
      ]

module _ {M T : Type 0} (mem : ValueMemory M T) ⦃php : PhpTypes⦄ ⦃macros : ZvalMacros⦄
    (is : IsValueMemory mem) (counts : IsStringMemory mem.strings) where
  is_string-from_z_string : (p : ℕ) → Types.is_string (get_type_info (from_z_string p)) ≡ true
  unfolding get_type_info from_z_string
  is_string-from_z_string p =
      rw ((predicates_by_tag (record { t = macros.str_info p })).4, macros.str_info_tag p) refl

  two_owners :
      (p : ℕ) (m : M) (n : ℕ) (s : List ℕ)
      → mem.strings.find m p ≡ some (counted_string n s)
      → mem.strings.find (mem.strings.copy p m).1 p ≡ some (counted_string (n + 1) s)
  two_owners p m n s e = counts.find-copy p m (counted_string n s) p e ∙ rw ==-self refl

  -- The clone of a value with a counted string is a value with a string of its own, with the same bytes
  -- and one owner; when it is dropped every string is as before the clone.
  pub drop_val-clone :
      (p : ℕ) (m : M) (n : ℕ) (s : List ℕ)
      → mem.strings.find m p ≡ some (counted_string n s)
      → 0 < n
      → (q : ℕ) × (m₁ m₂ : M) × (clone mem (from_z_string p) m ≡ returns (from_z_string q, m₁))
        × (q ≢ p)
        × (mem.strings.find m₁ q ≡ some (counted_string 1 s))
        × (mem.strings.find m₁ p ≡ some (counted_string n s))
        × (drop_val mem (from_z_string q) m₁ ≡ returns (tt, m₂))
        × ((x : ℕ) → mem.strings.find m₂ x ≡ mem.strings.find m x)
  unfolding clone drop_val
  drop_val-clone p m n s e h =
      let two : mem.strings.find (mem.strings.copy p m).1 p ≡ some (counted_string (n + 1) s) =
        two_owners p m n s e in
      let m' : M = mem.strings.release p (mem.strings.copy p m).1 in
      let q : ℕ = (mem.strings.init s m').0 in
      let source : mem.strings.find m' p ≡ some (counted_string n s) =
        release-copy mem.strings counts p m n s e h p ∙ e in
      let apart : q ≢ p = λ same.
        let clash : some (counted_string n s) ≡ none =
          sym source ∙ (ap (mem.strings.find m') (sym same) ∙ counts.init_fresh s m') in
        absurd (cc) in
      let there : mem.strings.find (mem.strings.init s m').1 q ≡ some (counted_string 1 s) =
        counts.find-init s m' q ∙ rw ==-self refl in
      let other : (p == q) ≡ false = ground arith in
      (
        q,
        (mem.strings.init s m').1,
        mem.strings.release q (mem.strings.init s m').1,
        rw (is.copy_string default p m (counted_string n s) e refl) (
            rw (is_string-from_z_string p) (
              rw (is.separate_shared_string p (mem.strings.copy p m).1 _ two refl (ground arith))
                refl)),
        apart,
        there,
        counts.find-init s m' p ∙ rw other source,
        rw (is.dtor_string q (mem.strings.init s m').1 _ there refl) refl,
        λ x. release-init mem.strings counts s m' x ∙ release-copy mem.strings counts p m n s e h x,
      )

  -- `ref_clone` of such a value is a value with the same string, which has one owner more; when it is
  -- dropped every string is as before.
  pub drop_val-ref_clone :
      (p : ℕ) (m : M) (n : ℕ) (s : List ℕ)
      → mem.strings.find m p ≡ some (counted_string n s)
      → 0 < n
      → (m₁ m₂ : M) × (ref_clone mem (from_z_string p) m ≡ returns (from_z_string p, m₁))
        × (mem.strings.find m₁ p ≡ some (counted_string (n + 1) s))
        × (drop_val mem (from_z_string p) m₁ ≡ returns (tt, m₂))
        × ((x : ℕ) → mem.strings.find m₂ x ≡ mem.strings.find m x)
  unfolding ref_clone drop_val
  drop_val-ref_clone p m n s e h =
      let two : mem.strings.find (mem.strings.copy p m).1 p ≡ some (counted_string (n + 1) s) =
        two_owners p m n s e in
      (
        (mem.strings.copy p m).1,
        mem.strings.release p (mem.strings.copy p m).1,
        rw (is.copy_string _ p m (counted_string n s) e refl) refl,
        two,
        rw (is.dtor_string p (mem.strings.copy p m).1 _ two refl) refl,
        release-copy mem.strings counts p m n s e h,
      )

  -- `into_inner` of the only owner of a string returns the pointer to a string that is gone.
  pub into_inner-released :
      (p : ℕ) (m : M) (s : List ℕ)
      → mem.strings.find m p ≡ some (counted_string 1 s)
      → (m₁ : M) × (into_inner mem (from_z_string p) m ≡ returns (from_z_string p, m₁))
        × (mem.strings.find m₁ p ≡ none)
  unfolding into_inner drop_val
  into_inner-released p m s e = (
    mem.strings.release p m,
    rw (is.dtor_string p m (counted_string 1 s) e refl) refl,
    counts.find-release p m (counted_string 1 s) p e ∙ rw ==-self (del_ref-last s),
  )
