-- ===== src/Classes/Create/History/Laws.antt =====
-- What the history of a class's objects (phper/src/classes.rs) relies on: the engine gives every new object
-- a place that no object has, keeps the places of the objects, and calls the destructors of states only
-- where the code does; the state's constructor and cloner do not panic.
use phper.Base.{ℕ, ◌≡◌, ◌≢◌, Bool, true, false, some, List, ◌∷◌, returns, ◌∙◌}
use phper.Functions.{PhpFlags}
use phper.Classes.{ClassEntity, StateCloner}
use phper.Classes.Create.{ObjectApi, Objects, as_mut_object}
use phper.Classes.Create.Hidden.{IsInstance}

-- What can be said of an engine: whether it runs as it should, whether an object lives with its state at
-- a place, and the states that were dropped, the latest first.
pub record View (D W : Type 0) : Type 0 where
  pub good : W → Bool
  pub live : ℕ → W → Bool
  pub dropped : W → List D

module _ {D W : Type 0} (view : View D W) where
  -- From `w` to `w'` no object that lived is gone, and no state is dropped.
  pub record IsQuiet (w w' : W) : Type 0 where
    pub still_good : view.good w' ≡ true
    pub still_live : (q : ℕ) → view.live q w ≡ true → view.live q w' ≡ true
    pub none_dropped : view.dropped w' ≡ view.dropped w

  abbrev pub AlwaysQuiet : (W → W) → Type 0
  AlwaysQuiet f = (w : W) → view.good w ≡ true → IsQuiet w (f w)

  pub quiet_then : {w₁ w₂ w₃ : W} → IsQuiet w₁ w₂ → IsQuiet w₂ w₃ → IsQuiet w₁ w₃
  quiet_then a b = record {
    still_good = b.still_good;
    still_live = λ q h. b.still_live q (a.still_live q h);
    none_dropped = b.none_dropped ∙ a.none_dropped;
  }

module _ {H D W T : Type 0} ⦃flags : PhpFlags⦄ (api : ObjectApi H D W) (class_names : List (List ℕ))
    (fuel : ℕ) (c : ClassEntity H D W) (l : List ℕ) (real ce : ℕ) (view : View D W) (any : T → D)
    (init : T) (copy : T → T) where
  -- The constructor makes `init`, and the cloner of a state `t` makes `copy t`.
  pub record IsObjectEngine : Type 0 where
    pub instance_of :
        (s : Objects D W) → view.good s.world ≡ true → IsInstance api class_names fuel c l real ce s
    pub class_kept :
        (p : ℕ) (w : W)
        → view.good w ≡ true
        → view.live p w ≡ true
        → api.class_of (as_mut_object p) w ≡ ce
    pub alloc_fresh : (w : W) → view.good w ≡ true → view.live (api.object_alloc ce w).0 w ≡ false
    pub alloc_live :
        (w : W)
        → view.good w ≡ true
        → view.live (api.object_alloc ce w).0 (api.object_alloc ce w).1 ≡ true
    pub never_null : (w : W) → view.good w ≡ true → view.live 0 w ≡ false
    pub alloc_quiet : AlwaysQuiet view (λ w. (api.object_alloc ce w).1)
    pub std_init_quiet : (object : ℕ) → AlwaysQuiet view (api.object_std_init object ce)
    pub properties_init_quiet :
        (object : ℕ) → AlwaysQuiet view (api.object_properties_init object ce)
    pub rebuild_quiet : (object : ℕ) → AlwaysQuiet view (api.rebuild_object_properties object)
    pub clone_members_quiet : (new old : ℕ) → AlwaysQuiet view (api.clone_members new old)
    pub constructed :
        (w : W)
        → view.good w ≡ true
        → (w' : W) × (c.state_constructor w ≡ returns (any init, w')) × IsQuiet view w w'
    pub cloner : StateCloner D W
    pub has_cloner : c.state_cloner ≡ some cloner
    pub cloned :
        (t : T) (w : W)
        → view.good w ≡ true
        → (w' : W) × (cloner (any t) w ≡ returns (any (copy t), w')) × IsQuiet view w w'
    pub drop_good : (d : D) (w : W) → view.good w ≡ true → view.good (api.drop_any d w) ≡ true
    pub drop_live :
        (d : D) (q : ℕ) (w : W) → view.live q w ≡ true → view.live q (api.drop_any d w) ≡ true
    pub drop_counted : (d : D) (w : W) → view.dropped (api.drop_any d w) ≡ d ∷ view.dropped w
    pub dtor_good :
        (object : ℕ) (w : W) → view.good w ≡ true → view.good (api.object_std_dtor object w) ≡ true
    pub dtor_live :
        (p q : ℕ) (w : W)
        → q ≢ p
        → view.live q w ≡ true
        → view.live q (api.object_std_dtor (as_mut_object p) w) ≡ true
    pub dtor_quiet :
        (object : ℕ) (w : W) → view.dropped (api.object_std_dtor object w) ≡ view.dropped w
