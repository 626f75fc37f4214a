-- ===== src/Owned/Refinement.antt =====
-- Requests on `ZString`s (phper/src/strings.rs) against Rust strings that are copied and never shared.
use phper.Base.{
  ℕ, ◌+◌, ◌^◌, ◌<◌, ◌≡◌, refl, ◌∙◌, ap, Option, none, some, List, [], ◌∷◌, map, Outcome, returns,
  arith, length, get_elem?, inl, inr, ◌⊎◌, Bool-cases, Option-cases, ◌==◌,
}
use mathlib.Core.Option
use phper.Owned.{StringMemory, IsStringMemory}
use phper.Owned.Strings.{into_raw, new, clone, to_owned, to_ref_owned}
use phper.Owned.Requests.{
  Request, create, adopt, clone_of, owned_copy_of, share, through_raw, discard, apply, apply_all,
  drop_all, gains, at_owner,
}
use phper.Base.Places.{
  without, count, count-without, count_positive, get_elem?-map_view, map-without, map_agree,
  without_past,
}
use phper.Owned.Counts.{Keeps, SameBytes}
use phper.Owned.Tracking.{
  view, Made, there, deref_lem, from_raw_lem, new-Made, clone-Made, to_owned-Made,
  to_ref_owned-Made, drop_string-left,
}

-- The same request on a list of texts; `text` has those of the engine's strings.
abbrev pub text_first : Option (List ℕ) → List (List ℕ) → List (List ℕ) → List (List ℕ)
text_first none texts rest = texts
text_first (some s) texts rest = s ∷ rest

abbrev pub texts_after : (ℕ → List ℕ) → Request → List (List ℕ) → List (List ℕ)
texts_after text (create s) texts = s ∷ texts
texts_after text (adopt p) texts = text p ∷ texts
texts_after text (clone_of i) texts = text_first (get_elem? texts i) texts texts
texts_after text (owned_copy_of i) texts = text_first (get_elem? texts i) texts texts
texts_after text (share i) texts = text_first (get_elem? texts i) texts texts
texts_after text (through_raw i) texts = text_first (get_elem? texts i) texts (without i texts)
texts_after text (discard i) texts = without i texts

abbrev pub all_texts : (ℕ → List ℕ) → List Request → List (List ℕ) → List (List ℕ)
all_texts text [] texts = texts
all_texts text (r ∷ rest) texts = all_texts text rest (texts_after text r texts)

-- A text made has fewer than 2^31 bytes, and a string taken over is in the engine's hands.
abbrev pub Valid : (ℕ → ℕ) → Request → Type 0
Valid held (create s) = length s < 2 ^ 31
Valid held (adopt p) = 0 < held p
Valid held (clone_of i) = Unit
Valid held (owned_copy_of i) = Unit
Valid held (share i) = Unit
Valid held (through_raw i) = Unit
Valid held (discard i) = Unit

abbrev pub AllValid : (ℕ → ℕ) → List Request → Type 0
AllValid held [] = Unit
AllValid held (r ∷ rest) = Valid held r × AllValid held rest

module _ {M : Type 0} (mem : StringMemory M) (is : IsStringMemory mem) (held : ℕ → ℕ)
    (text : ℕ → List ℕ) where
  -- The strings in the engine's hands have their texts.
  abbrev pub Holds : M → Type 0
  Holds m = (q : ℕ) → (held q ≡ 0) ⊎ (view mem m q ≡ text q)

  abbrev pub Tracked : List (List ℕ) → Outcome (List ℕ × M) → Type 0
  Tracked texts ran =
      (owners' : List ℕ) × (m' : M) × (ran ≡ returns (owners', m'))
      × Keeps mem held owners' m'
      × Holds m'
      × (map (view mem m') owners' ≡ texts)

  Holds-after : (owners : List ℕ) (m m' : M) → SameBytes mem held owners m m' → Holds m → Holds m'
  Holds-after owners m m' same holds q = elim (Bool-cases (held q == 0)) [
    | inl e ↦ inl (ground arith)
    | inr e ↦
        let kept : view mem m' q ≡ view mem m q = same q (ground arith) in
        elim (holds q) [ inl none_held ↦ inl none_held | inr text_q ↦ inr (kept ∙ text_q) ]
  ]

  Holds-held : (m : M) (p : ℕ) → 0 < held p → Holds m → view mem m p ≡ text p
  Holds-held m p h holds = elim (holds p) [ inl none_held ↦ absurd (omega arith) | inr e ↦ e ]

  views-after :
      (owners : List ℕ) (m m' : M)
      → SameBytes mem held owners m m'
      → map (view mem m') owners ≡ map (view mem m) owners
  views-after owners m m' same =
      map_agree (view mem m') (view mem m) owners (λ q h. same q (omega arith))

  module _ (owners : List ℕ) (m : M) (k : Keeps mem held owners m) (holds : Holds m) where
    gained :
        (s : List ℕ) (made : M → Outcome (ℕ × M))
        → Made mem is held owners m k s (made m)
        → Tracked (s ∷ map (view mem m) owners) (gains mem made owners m)
    gained s made (p, m', e, keeps, reads, same) = (
      p ∷ owners,
      m',
      rw e refl,
      keeps,
      Holds-after owners m m' same holds,
      rw (reads, views-after owners m m' same) refl,
    )

    unchanged : Tracked (map (view mem m) owners) (returns (owners, m))
    unchanged = (owners, m, refl, k, holds, refl)

    -- The requests that copy or share an owner's string.
    gained_at :
        (i : ℕ) (made : ℕ → M → Outcome (ℕ × M))
        → ((p : ℕ)
            → 0 < held p + count p owners
            → Made mem is held owners m k (view mem m p) (made p m))
        → Tracked
            (text_first
              (get_elem? (map (view mem m) owners) i)
              (map (view mem m) owners)
              (map (view mem m) owners))
            (at_owner mem (get_elem? owners i) owners (λ p. gains mem (made p) owners) m)
    gained_at i made each = elim (Option-cases (get_elem? owners i)) [
      | inl e ↦ rw (get_elem?-map_view (view mem m) owners i, e) unchanged
      | inr (p, e) ↦
          let owned : 0 < count p owners = count_positive owners i p e in
          rw (get_elem?-map_view (view mem m) owners i, e)
            (gained (view mem m p) (made p) (each p (omega arith)))
    ]

    through_raw-Tracked :
        (i : ℕ)
        → Tracked
            (texts_after text (through_raw i) (map (view mem m) owners))
            (apply mem (through_raw i) owners m)
    unfolding apply into_raw
    through_raw-Tracked i = elim (Option-cases (get_elem? owners i)) [
      | inl e ↦ rw (get_elem?-map_view (view mem m) owners i, e) unchanged
      | inr (p, e) ↦
          let owned : 0 < count p owners = count_positive owners i p e in
          let (y, found, short, not_null) = there mem is held owners m k p (omega arith) in
          rw (get_elem?-map_view (view mem m) owners i, e)
            (
              p ∷ without i owners,
              m,
              rw (deref_lem p not_null) (rw (from_raw_lem p not_null) refl),
              λ q. rw (← count-without owners i p q e) (k q),
              holds,
              ap (λ l. view mem m p ∷ l) (map-without (view mem m) owners i),
            )
    ]

    discard-Tracked :
        (i : ℕ)
        → Tracked
            (texts_after text (discard i) (map (view mem m) owners))
            (apply mem (discard i) owners m)
    unfolding apply
    discard-Tracked i = elim (Option-cases (get_elem? owners i)) [
      | inl e ↦
          let whole : without i (map (view mem m) owners) ≡ map (view mem m) owners =
            without_past (map (view mem m) owners) i
              (get_elem?-map_view (view mem m) owners i ∙ ap (Option.map (view mem m)) e) in
          rw (whole, e) unchanged
      | inr (p, e) ↦
          let (run, keeps, same) = drop_string-left mem is held owners m k i p e in
          rw e (
            without i owners,
            mem.release p m,
            rw run refl,
            keeps,
            Holds-after (without i owners) m (mem.release p m) same holds,
            views-after (without i owners) m (mem.release p m) same
                ∙ map-without (view mem m) owners i,
          )
    ]

    apply-Tracked :
        (r : Request)
        → Valid held r
        → Tracked (texts_after text r (map (view mem m) owners)) (apply mem r owners m)
    unfolding apply
    apply-Tracked (create s) short = gained s (new mem s) (new-Made mem is held owners m k s short)
    apply-Tracked (adopt p) engine's = rw (← Holds-held m p engine's holds) (
        gained (view mem m p) (to_ref_owned mem p)
          (to_ref_owned-Made mem is held owners m k p (omega arith)))
    apply-Tracked (clone_of i) h = gained_at i (clone mem) (clone-Made mem is held owners m k)
    apply-Tracked (owned_copy_of i) h =
        gained_at i (to_owned mem) (to_owned-Made mem is held owners m k)
    apply-Tracked (share i) h =
        gained_at i (to_ref_owned mem) (to_ref_owned-Made mem is held owners m k)
    apply-Tracked (through_raw i) h = through_raw-Tracked i
    apply-Tracked (discard i) h = discard-Tracked i

  run_all :
      (requests : List Request) (owners : List ℕ) (m : M)
      → AllValid held requests
      → Keeps mem held owners m
      → Holds m
      → Tracked
          (all_texts text requests (map (view mem m) owners))
          (apply_all mem requests owners m)
  unfolding apply_all
  run_all [] owners m h k holds = unchanged owners m k holds
  run_all (r ∷ rest) owners m (h, hs) k holds =
      let (owners₁, m₁, run₁, k₁, holds₁, shown₁) = apply-Tracked owners m k holds r h in
      rw (run₁, ← shown₁) (run_all rest owners₁ m₁ hs k₁ holds₁)

  -- Whatever an extension with no `ZString` in its hands does with `ZString`s, by requests that are valid,
  -- the requests return; the owners that are left read what Rust strings would hold after the same
  -- requests, the strings of the engine keep their texts, and each string that is not interned counts
  -- exactly its owners and the engine's references.
  pub apply_all-all_texts :
      (requests : List Request) (m : M)
      → AllValid held requests
      → Keeps mem held [] m
      → Holds m
      → Tracked (all_texts text requests []) (apply_all mem requests [] m)
  apply_all-all_texts requests m h k holds = run_all requests [] m h k holds

  pub drop_all-Keeps :
      (owners : List ℕ) (m : M)
      → Keeps mem held owners m
      → Holds m
      → (m' : M) × (drop_all mem owners m ≡ returns (tt, m')) × Keeps mem held [] m' × Holds m'
  unfolding drop_all
  drop_all-Keeps [] m k holds = (m, refl, k, holds)
  drop_all-Keeps (p ∷ rest) m k holds =
      let (run, keeps, same) = drop_string-left mem is held (p ∷ rest) m k 0 p refl in
      let (m', all, keeps', holds') =
        drop_all-Keeps rest (mem.release p m) keeps
          (Holds-after rest m (mem.release p m) same holds) in
      (m', rw run all, keeps', holds')
