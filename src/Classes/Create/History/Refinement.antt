-- ===== src/Classes/Create/History/Refinement.antt =====
-- The history of a class's objects (phper/src/classes.rs) against plain values: a list of the states of the
-- objects that live, and one of the states that were dropped.
use phper.Base.{
  ℕ, ◌≡◌, ◌≢◌, refl, sym, ap, ◌∙◌, true, Option, none, some, List, [], ◌∷◌, Outcome, returns, arith,
  map, get_elem?, ◌==◌, if◌then◌else◌, inl, inr, Option-cases, some_inj,
}
use phper.Base.Places.{without, count, count_positive, get_elem?-map_view}
use mathlib.Core.Option
use phper.Functions.{PhpFlags}
use phper.Classes.{ClassEntity}
use phper.Classes.Create.{ObjectApi, Objects, as_mut_object, create_object, clone_object}
use phper.Classes.Create.Handles.{as_mut_state_obj}
use phper.Classes.Create.States.{as_mut_state}
use phper.Classes.Create.Places.{place_lem, read_lem}
use phper.Classes.Create.Lifecycle.{freed, free_object-freed}
use phper.Classes.Create.History.{Request, create, clone_of, change, free, gains, apply, apply_all}
use phper.Classes.Create.History.Laws.{View, IsObjectEngine}
use phper.Classes.Create.History.Making.{Made, not_null_lem, create_object-Made, clone_object-Made}
use phper.Classes.Create.History.Tracking.{Tracks, Made-Tracks, Tracks-changed, Tracks-freed}

-- The states that live and those that were dropped, the latest first.
abbrev pub States : Type 0 → Type 0
States T = List T × List T

module _ {T : Type 0} (init : T) (copy : T → T) where
  abbrev pub at_state : Option T → States T → (T → States T) → States T
  at_state none states f = states
  at_state (some t) states f = f t

  abbrev pub states_after : Request T → States T → States T
  states_after create (ts, ds) = (init ∷ ts, ds)
  states_after (clone_of i) (ts, ds) = at_state (get_elem? ts i) (ts, ds) (λ t. (copy t ∷ ts, ds))
  states_after (change i f) (ts, ds) =
      at_state (get_elem? ts i) (ts, ds) (λ t. (f t ∷ without i ts, ds))
  states_after (free i) (ts, ds) = at_state (get_elem? ts i) (ts, ds) (λ t. (without i ts, t ∷ ds))

  abbrev pub all_states : List (Request T) → States T → States T
  all_states [] states = states
  all_states (r ∷ rest) states = all_states rest (states_after r states)

module _ {D T : Type 0} (any : T → D) where
  state_at :
      (f : ℕ → Option D) (owners : List ℕ) (ts : List T) (i p : ℕ)
      → map f owners ≡ map (λ t. some (any t)) ts
      → get_elem? owners i ≡ some p
      → (t : T) × (get_elem? ts i ≡ some t) × (f p ≡ some (any t))
  state_at f owners ts i p held at_i =
      let here : some (f p) ≡ Option.map (λ t. some (any t)) (get_elem? ts i) =
        ap (Option.map f) (sym at_i)
        ∙ sym (get_elem?-map_view f owners i)
        ∙ ap (λ l. get_elem? l i) held
        ∙ get_elem?-map_view (λ t. some (any t)) ts i in
      elim (Option-cases (get_elem? ts i)) [
        | inl missing ↦
            let bad : some (f p) ≡ none = here ∙ ap (Option.map (λ t. some (any t))) missing in
            absurd (cc)
        | inr (t, there) ↦ (t, there, some_inj (here ∙ ap (Option.map (λ t. some (any t))) there))
      ]

  no_state_at :
      (f : ℕ → Option D) (owners : List ℕ) (ts : List T) (i : ℕ)
      → map f owners ≡ map (λ t. some (any t)) ts
      → get_elem? owners i ≡ none
      → get_elem? ts i ≡ none
  no_state_at f owners ts i held at_i =
      let here : none ≡ Option.map (λ t. some (any t)) (get_elem? ts i) =
        ap (Option.map f) (sym at_i)
        ∙ sym (get_elem?-map_view f owners i)
        ∙ ap (λ l. get_elem? l i) held
        ∙ get_elem?-map_view (λ t. some (any t)) ts i in
      elim (Option-cases (get_elem? ts i)) [
        | inl missing ↦ missing
        | inr (t, there) ↦
            let bad : none ≡ some (some (any t)) =
              here ∙ ap (Option.map (λ t. some (any t))) there in
            absurd (cc)
      ]

module _ {H D W T : Type 0} ⦃flags : PhpFlags⦄ (api : ObjectApi H D W) (class_names : List (List ℕ))
    (fuel : ℕ) (c : ClassEntity H D W) (l : List ℕ) (real ce : ℕ) (view : View D W)
    (downcast : D → Option T) (any : T → D) (init : T) (copy : T → T)
    (is : IsObjectEngine api class_names fuel c l real ce view any init copy)
    (back : (t : T) → downcast (any t) ≡ some t) where
  -- A run that returns and tracks the states.
  record Follows (states : States T) (r : Outcome (List ℕ × Objects D W)) : Type 0 where
    owners : List ℕ
    after : Objects D W
    runs : r ≡ returns (owners, after)
    tracks : Tracks view any owners states.0 states.1 after

  gains-Follows :
      (owners : List ℕ) (ts ds : List T) (s : Objects D W) (t : T)
      (run : Objects D W → Outcome (ℕ × Objects D W))
      → Tracks view any owners ts ds s
      → Made api class_names fuel c l real ce view any init copy is s t (run s)
      → Follows (t ∷ ts, ds) (gains api class_names fuel ce downcast any run owners s)
  unfolding as_mut_state_obj
  gains-Follows owners ts ds s t run tracks made = record {
    owners = made.place ∷ owners;
    after = made.after;
    runs = rw made.runs (rw (place_lem made.place made.not_null) refl);
    tracks =
        Made-Tracks api class_names fuel c l real ce view any init copy is owners ts ds s t (run s)
          made tracks;
  }

  unchanged :
      (owners : List ℕ) (ts ds : List T) (s : Objects D W)
      → Tracks view any owners ts ds s
      → Follows (ts, ds) (returns (owners, s))
  unchanged owners ts ds s tracks = record {
    owners = owners;
    after = s;
    runs = refl;
    tracks = tracks;
  }

  changed-Follows :
      (owners : List ℕ) (ts ds : List T) (s : Objects D W) (i p : ℕ) (t : T)
      → get_elem? owners i ≡ some p
      → Tracks view any owners ts ds s
      → Follows
          (t ∷ without i ts, ds)
          (returns (
            p ∷ without i owners,
            record s { states = λ q. if q == p then some (any t) else s.states q },
          ))
  changed-Follows owners ts ds s i p t there tracks = record {
    owners = _;
    after = _;
    runs = refl;
    tracks = Tracks-changed view any owners ts ds s i p t there tracks;
  }

  not_null_at :
      (owners : List ℕ) (ts ds : List T) (s : Objects D W) (i p : ℕ)
      → get_elem? owners i ≡ some p
      → Tracks view any owners ts ds s
      → p ≢ 0
  not_null_at owners ts ds s i p there tracks =
      not_null_lem api class_names fuel c l real ce view any init copy is p s.world tracks.good
        (tracks.alive p (count_positive owners i p there))

  freed-Follows :
      (owners : List ℕ) (ts ds : List T) (s : Objects D W) (i p : ℕ) (t : T)
      → get_elem? owners i ≡ some p
      → Tracks view any owners ts ds s
      → Follows (without i ts, t ∷ ds) (returns (without i owners, freed api p (any t) s))
  freed-Follows owners ts ds s i p t there tracks = record {
    owners = _;
    after = _;
    runs = refl;
    tracks =
        Tracks-freed api class_names fuel c l real ce view any init copy is owners ts ds s i p t
          there tracks;
  }

  apply-Follows :
      (r : Request T) (owners : List ℕ) (ts ds : List T) (s : Objects D W)
      → Tracks view any owners ts ds s
      → Follows
          (states_after init copy r (ts, ds))
          (apply api class_names fuel ce downcast any r owners s)
  unfolding apply as_mut_state
  apply-Follows create owners ts ds s tracks =
      gains-Follows owners ts ds s init (create_object api class_names fuel ce) tracks
        (create_object-Made api class_names fuel c l real ce view any init copy is s tracks.good)
  apply-Follows (clone_of i) owners ts ds s tracks = elim (Option-cases (get_elem? owners i)) [
    | inl missing ↦
        rw (missing, no_state_at any s.states owners ts i tracks.states_held missing)
          (unchanged owners ts ds s tracks)
    | inr (p, there) ↦
        let (t, state_there, stored) =
          state_at any s.states owners ts i p tracks.states_held there in
        rw (there, state_there)
          (gains-Follows owners ts ds s (copy t)
            (clone_object api class_names fuel (as_mut_object p)) tracks
            (clone_object-Made api class_names fuel c l real ce view any init copy is p t s
              tracks.good (tracks.alive p (count_positive owners i p there)) stored))
  ]
  apply-Follows (change i f) owners ts ds s tracks = elim (Option-cases (get_elem? owners i)) [
    | inl missing ↦
        rw (missing, no_state_at any s.states owners ts i tracks.states_held missing)
          (unchanged owners ts ds s tracks)
    | inr (p, there) ↦
        let (t, state_there, stored) =
          state_at any s.states owners ts i p tracks.states_held there in
        rw (there, state_there)
          (rw (read_lem p s (any t) stored)
            (rw (back t) (changed-Follows owners ts ds s i p (f t) there tracks)))
  ]
  apply-Follows (free i) owners ts ds s tracks = elim (Option-cases (get_elem? owners i)) [
    | inl missing ↦
        rw (missing, no_state_at any s.states owners ts i tracks.states_held missing)
          (unchanged owners ts ds s tracks)
    | inr (p, there) ↦
        let (t, state_there, stored) =
          state_at any s.states owners ts i p tracks.states_held there in
        rw (there, state_there)
          (rw
            (free_object-freed api p (any t) s (not_null_at owners ts ds s i p there tracks) stored)
            (freed-Follows owners ts ds s i p t there tracks))
  ]

  apply_all-Follows :
      (requests : List (Request T)) (owners : List ℕ) (ts ds : List T) (s : Objects D W)
      → Tracks view any owners ts ds s
      → Follows
          (all_states init copy requests (ts, ds))
          (apply_all api class_names fuel ce downcast any requests owners s)
  unfolding apply_all
  apply_all-Follows [] owners ts ds s tracks = unchanged owners ts ds s tracks
  apply_all-Follows (r ∷ rest) owners ts ds s tracks =
      let first = apply-Follows r owners ts ds s tracks in
      rw first.runs (
        apply_all-Follows rest first.owners (states_after init copy r (ts, ds)).0
          (states_after init copy r (ts, ds)).1 first.after first.tracks)

  -- Of a class whose constructor makes `init` and whose cloner makes `copy t` of `t`, over an
  -- engine that gives every object a place of its own, where no state is stored and none was
  -- dropped, any requests return. The objects that live then hold the states that plain values have
  -- after the same requests, no other state is stored, and exactly the states of the objects that
  -- were freed were dropped, once each and in order.
  pub apply_all-all_states :
      (requests : List (Request T)) (s : Objects D W)
      → view.good s.world ≡ true
      → view.dropped s.world ≡ []
      → ((q : ℕ) → s.states q ≡ none)
      → (owners : List ℕ) × (s' : Objects D W) × (apply_all api class_names fuel ce downcast any
            requests [] s
          ≡ returns (owners, s'))
        × (map s'.states owners
            ≡ map (λ t. some (any t)) (all_states init copy requests ([], [])).0)
        × ((q : ℕ) → count q owners ≡ 0 → s'.states q ≡ none)
        × (view.dropped s'.world ≡ map any (all_states init copy requests ([], [])).1)
  apply_all-all_states requests s good fresh empty =
      let end = apply_all-Follows requests [] [] [] s (record {
        good = good;
        states_held = refl;
        once = λ q. omega arith;
        alive = λ q h. absurd (omega arith);
        no_other = λ q h. empty q;
        gone = fresh;
      }) in
      (
        end.owners, end.after, end.runs, end.tracks.states_held, end.tracks.no_other,
        end.tracks.gone,
      )
