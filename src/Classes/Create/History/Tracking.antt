-- ===== src/Classes/Create/History/Tracking.antt =====
-- The objects of a class and their states (phper/src/classes.rs) through a history: what is true before
-- and after every request.
use phper.Base.{
  ℕ, zero, suc, ◌⊎◌, ◌≤◌, ◌<◌, ◌≡◌, refl, sym, ap, ◌∙◌, true, false, Option, none, some, List, ◌∷◌,
  Outcome, arith, map, get_elem?, ◌==◌, ==-self, if◌then◌else◌, Bool-cases, inl, inr,
}
use phper.Base.Places.{without, count, count-without, count_positive, map_agree, map-without}
use phper.Functions.{PhpFlags}
use phper.Classes.{ClassEntity}
use phper.Classes.Create.{ObjectApi, Objects}
use phper.Classes.Create.Lifecycle.{freed}
use phper.Classes.Create.History.Laws.{View, IsObjectEngine}
use phper.Classes.Create.History.Making.{Made}

zero_or_positive : (n : ℕ) → (n ≡ 0) ⊎ (0 < n)
zero_or_positive zero = inl refl
zero_or_positive (suc n) = inr (omega arith)

count_front :
    (q p : ℕ) (rest : List ℕ) → count p rest ≡ 0 → count q rest ≤ 1 → count q (p ∷ rest) ≤ 1
count_front q p rest h once = elim (Bool-cases (q == p)) [
  | inl e ↦ let same : q ≡ p = ground arith in rw same (ground (arith, h))
  | inr e ↦ rw e once
]

without_once :
    (owners : List ℕ) (i p : ℕ)
    → get_elem? owners i ≡ some p
    → count p owners ≤ 1
    → count p (without i owners) ≡ 0
without_once owners i p at_i once = ground (arith, count-without owners i p p at_i)

count_without :
    (owners : List ℕ) (i p q : ℕ)
    → get_elem? owners i ≡ some p
    → count q (without i owners) ≤ count q owners
count_without owners i p q at_i = ground (arith, count-without owners i p q at_i)

count_apart :
    (owners : List ℕ) (i p q : ℕ)
    → get_elem? owners i ≡ some p
    → (q == p) ≡ false
    → count q owners ≡ count q (without i owners)
count_apart owners i p q at_i apart = rw (count-without owners i p q at_i) (rw apart refl)

module _ {D : Type 0} where
  -- The states of other places, where only the state at `p` has changed.
  states_apart :
      (f g : ℕ → Option D) (p : ℕ) (x : Option D) (rest : List ℕ)
      → ((q : ℕ) → g q ≡ (if q == p then x else f q))
      → count p rest ≡ 0
      → map g rest ≡ map f rest
  states_apart f g p x rest changed unused = map_agree g f rest (λ q there.
      elim (Bool-cases (q == p)) [
        | inl e ↦
            let same : q ≡ p = ground arith in
            let nowhere : count q rest ≡ 0 = rw same unused in absurd (ground arith)
        | inr e ↦ rw (changed q, e) refl
      ])

  states_first :
      (f g : ℕ → Option D) (p : ℕ) (x : Option D) (rest : List ℕ)
      → ((q : ℕ) → g q ≡ (if q == p then x else f q))
      → count p rest ≡ 0
      → map g (p ∷ rest) ≡ x ∷ map f rest
  states_first f g p x rest changed unused =
      rw (changed p, states_apart f g p x rest changed unused, ==-self) refl

module _ {D W T : Type 0} (view : View D W) (any : T → D) where
  -- The objects at `owners` have the states `ts`, each at a place of its own, no other state is stored,
  -- and the states `ds` were dropped.
  pub record Tracks (owners : List ℕ) (ts ds : List T) (s : Objects D W) : Type 0 where
    pub good : view.good s.world ≡ true
    pub states_held : map s.states owners ≡ map (λ t. some (any t)) ts
    pub once : (q : ℕ) → count q owners ≤ 1
    pub alive : (q : ℕ) → 0 < count q owners → view.live q s.world ≡ true
    pub no_other : (q : ℕ) → count q owners ≡ 0 → s.states q ≡ none
    pub gone : view.dropped s.world ≡ map any ds

  without_states :
      (owners : List ℕ) (ts : List T) (f : ℕ → Option D) (i : ℕ)
      → map f owners ≡ map (λ t. some (any t)) ts
      → map f (without i owners) ≡ map (λ t. some (any t)) (without i ts)
  without_states owners ts f i held =
      map-without f owners i ∙ ap (without i) held ∙ sym (map-without (λ t. some (any t)) ts i)

  -- The object at the place `p` with another state, before the others.
  pub Tracks-changed :
      (owners : List ℕ) (ts ds : List T) (s : Objects D W) (i p : ℕ) (t : T)
      → get_elem? owners i ≡ some p
      → Tracks owners ts ds s
      → Tracks
          (p ∷ without i owners)
          (t ∷ without i ts)
          ds
          (record s { states = λ q. if q == p then some (any t) else s.states q })
  Tracks-changed owners ts ds s i p t at_i tracks =
      let unused : count p (without i owners) ≡ 0 = without_once owners i p at_i (tracks.once p) in
      record {
        good = tracks.good;
        states_held =
            states_first s.states (λ q. if q == p then some (any t) else s.states q) p
              (some (any t)) (without i owners) (λ q. refl) unused
            ∙ ap (λ rest. some (any t) ∷ rest)
                (without_states owners ts s.states i tracks.states_held);
        once = λ q.
            let less = count_without owners i p q at_i in
            let before = tracks.once q in count_front q p (without i owners) unused (omega arith);
        alive = λ q h. elim (Bool-cases (q == p)) [
          | inl e ↦
              let same : q ≡ p = ground arith in
              rw same (tracks.alive p (count_positive owners i p at_i))
          | inr e ↦ let less = count_without owners i p q at_i in tracks.alive q (ground arith)
        ];
        no_other = λ q h. elim (Bool-cases (q == p)) [
          | inl e ↦ absurd (ground arith)
          | inr e ↦ rw e (tracks.no_other q (ground (arith, count_apart owners i p q at_i e)))
        ];
        gone = tracks.gone;
      }

module _ {H D W T : Type 0} ⦃flags : PhpFlags⦄ (api : ObjectApi H D W) (class_names : List (List ℕ))
    (fuel : ℕ) (c : ClassEntity H D W) (l : List ℕ) (real ce : ℕ) (view : View D W) (any : T → D)
    (init : T) (copy : T → T)
    (is : IsObjectEngine api class_names fuel c l real ce view any init copy) where
  unowned :
      (owners : List ℕ) (s : Objects D W) (p : ℕ)
      → ((q : ℕ) → 0 < count q owners → view.live q s.world ≡ true)
      → view.live p s.world ≡ false
      → count p owners ≡ 0
  unowned owners s p alive fresh = elim (zero_or_positive (count p owners)) [
    | inl none_there ↦ none_there
    | inr some_there ↦ let lives = alive p some_there in absurd (cc)
  ]

  -- An object that was made is tracked before the others.
  pub Made-Tracks :
      (owners : List ℕ) (ts ds : List T) (s : Objects D W) (t : T) (r : Outcome (ℕ × Objects D W))
      → (made : Made api class_names fuel c l real ce view any init copy is s t r)
      → Tracks view any owners ts ds s
      → Tracks view any (made.place ∷ owners) (t ∷ ts) ds made.after
  Made-Tracks owners ts ds s t r made tracks =
      let unused : count made.place owners ≡ 0 =
        unowned owners s made.place tracks.alive made.fresh in
      record {
        good = made.quiet.still_good;
        states_held =
            states_first s.states made.after.states made.place (some (any t)) owners made.stored
              unused
            ∙ ap (λ rest. some (any t) ∷ rest) tracks.states_held;
        once = λ q. count_front q made.place owners unused (tracks.once q);
        alive = λ q h. elim (Bool-cases (q == made.place)) [
          | inl e ↦ let same : q ≡ made.place = ground arith in rw same made.lives
          | inr e ↦ made.quiet.still_live q (tracks.alive q (ground arith))
        ];
        no_other = λ q h. elim (Bool-cases (q == made.place)) [
          | inl e ↦ absurd (ground arith)
          | inr e ↦ rw (made.stored q, e) (tracks.no_other q (ground arith))
        ];
        gone = made.quiet.none_dropped ∙ tracks.gone;
      }

  -- After the object at the place `p` is freed, the others are as before, and its state was dropped.
  pub Tracks-freed :
      (owners : List ℕ) (ts ds : List T) (s : Objects D W) (i p : ℕ) (t : T)
      → get_elem? owners i ≡ some p
      → Tracks view any owners ts ds s
      → Tracks view any (without i owners) (without i ts) (t ∷ ds) (freed api p (any t) s)
  Tracks-freed owners ts ds s i p t at_i tracks =
      let unused : count p (without i owners) ≡ 0 = without_once owners i p at_i (tracks.once p) in
      let w = api.drop_any (any t) s.world in
      record {
        good = is.dtor_good _ w (is.drop_good (any t) s.world tracks.good);
        states_held =
            states_apart s.states (λ q. if q == p then none else s.states q) p none
              (without i owners) (λ q. refl) unused
            ∙ without_states view any owners ts s.states i tracks.states_held;
        once = λ q.
            let less = count_without owners i p q at_i in let before = tracks.once q in omega arith;
        alive = λ q h. elim (Bool-cases (q == p)) [
          | inl e ↦
              let same : q ≡ p = ground arith in
              let nowhere : count q (without i owners) ≡ 0 = rw same unused in absurd (omega arith)
          | inr e ↦
              let less = count_without owners i p q at_i in
              is.dtor_live p q w (λ same. absurd (ground arith))
                (is.drop_live (any t) q s.world (tracks.alive q (omega arith)))
        ];
        no_other = λ q h. elim (Bool-cases (q == p)) [
          | inl e ↦ rw e refl
          | inr e ↦ rw e (tracks.no_other q (ground (arith, count_apart owners i p q at_i e)))
        ];
        gone =
            is.dtor_quiet _ w
            ∙ is.drop_counted (any t) s.world
            ∙ ap (λ rest. any t ∷ rest) tracks.gone;
      }
