-- ===== src/Classes/Create/Cloning.antt =====
-- `clone_object` (phper/src/classes.rs) makes a state of its own for the clone.
use phper.Base.{
  ℕ, false, ◌≡◌, ◌≢◌, refl, Option, some, List, returns, arith, ◌==◌, ==-self, if◌then◌else◌,
}
use phper.Functions.{PhpFlags}
use phper.Classes.{ClassEntity, StateCloner}
use phper.Classes.Create.{
  ObjectApi, Objects, Handlers, clone_object, as_mut_object, on_world, set_handlers, set_state,
}
use phper.Classes.Create.Places.{place_lem, read_lem, run_lem}
use phper.Classes.Create.Hidden.{IsInstance, clone_of, clone_object-hidden}

module _ {H D W : Type 0} ⦃flags : PhpFlags⦄ (api : ObjectApi H D W) (class_names : List (List ℕ))
    (fuel : ℕ) (c : ClassEntity H D W) (l : List ℕ) (real : ℕ) where
  -- What the engine has done when the cloner runs.
  unfoldable pub copied : (ce object : ℕ) → Objects D W → W
  unfolding as_mut_object
  copied ce object s =
      let new_object = as_mut_object (api.object_alloc ce s.world).0 in
      api.clone_members new_object object (
        api.object_properties_init new_object ce
          (api.object_std_init new_object ce (api.object_alloc ce s.world).1))

  -- Cloning an object whose nearest registered class has a cloner, where the cloner returns for the
  -- object's state and the new object has a place of its own: the clone is an object of the same class
  -- with the original's members and handlers, its state is the cloner's, and the original keeps its own.
  pub clone_object-states :
      (q : ℕ) (cloner : StateCloner D W) (s : Objects D W) (d d' : D) (w : W)
      → IsInstance api class_names fuel c l real (api.class_of (as_mut_object q) s.world) s
      → c.state_cloner ≡ some cloner
      → q ≢ 0
      → q ≢ (api.object_alloc (api.class_of (as_mut_object q) s.world) s.world).0
      → s.states q ≡ some d
      → cloner d (copied (api.class_of (as_mut_object q) s.world) (as_mut_object q) s)
        ≡ returns (d', w)
      → (p : ℕ) × (s' : Objects D W) × (p
          ≡ (api.object_alloc (api.class_of (as_mut_object q) s.world) s.world).0)
        × (clone_object api class_names fuel (as_mut_object q) s ≡ returns (as_mut_object p, s'))
        × (s'.states p ≡ some d')
        × (s'.states q ≡ some d)
        × (s'.handlers (as_mut_object p) ≡ s.handlers (as_mut_object q))
        × (s'.world ≡ w)
  unfolding clone_of copied on_world set_handlers set_state
  clone_object-states q cloner s d d' w is has nonnull apart stored cloned =
      let object = as_mut_object q in
      let ce = api.class_of object s.world in
      let p = (api.object_alloc ce s.world).0 in
      let handlers : ℕ → Option Handlers =
        λ o. if o == as_mut_object p then s.handlers object else s.handlers o in
      let before : Objects D W = record {
        states = s.states;
        handlers = handlers;
        world = copied ce object s;
      } in
      let elsewhere : (q == p) ≡ false = ground arith in
      (
        p,
        record {
          states = λ o. if o == p then some d' else s.states o;
          handlers = handlers;
          world = w;
        },
        refl,
        rw (clone_object-hidden api class_names fuel c l real object cloner s is has) (
            rw (place_lem q nonnull)
              (rw (read_lem q before d stored) (rw (run_lem (cloner d) before d' w cloned) refl))),
        rw ==-self refl,
        rw elsewhere stored,
        rw ==-self refl,
        refl,
      )
