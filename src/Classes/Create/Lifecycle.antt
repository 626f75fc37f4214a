-- ===== src/Classes/Create/Lifecycle.antt =====
-- A state's life (phper/src/classes.rs, phper/src/objects.rs): `create_object` stores it, `free_object`
-- drops it, and `into_state` moves it out of the last reference.
use phper.Base.{
  ℕ, ◌+◌, ◌<◌, ◌≡◌, ◌≢◌, ◌⊎◌, refl, Option, none, some, List, returns, arith, ◌==◌, ==-self,
  if◌then◌else◌, is_some, ◌∙◌, Bool-cases, inl, inr,
}
use phper.Base.Steps.{Steps}
use phper.Functions.{PhpFlags}
use phper.Classes.{ClassEntity}
use phper.Classes.Create.{
  ObjectApi, Objects, offset, as_mut_object, create_object, drop_state, free_object, into_state,
  take_state, on_world, set_handlers, set_state,
}
use phper.Classes.Create.Places.{place_lem, read_lem, run_lem}
use phper.Classes.Create.Hidden.{IsInstance, new_object_of, create_object-hidden}

module _ {H D W : Type 0} (api : ObjectApi H D W) where
  abbrev pub freed : ℕ → D → Objects D W → Objects D W
  freed p d s = record s {
    states = λ q. if q == p then none else s.states q;
    world = api.object_std_dtor (as_mut_object p) (api.drop_any d s.world);
  }

  pub free_object-freed :
      (p : ℕ) (d : D) (s : Objects D W)
      → p ≢ 0
      → s.states p ≡ some d
      → free_object api (as_mut_object p) s ≡ returns (tt, freed p d s)
  unfolding free_object drop_state on_world set_state
  free_object-freed p d s h stored =
      rw (place_lem p h, drop_state) (rw (read_lem p s d stored) refl)

  pub free_object_lem :
      (p : ℕ) (d : D) (s : Objects D W)
      → p ≢ 0
      → s.states p ≡ some d
      → (s' : Objects D W) × (free_object api (as_mut_object p) s ≡ returns (tt, s'))
        × (s'.states p ≡ none)
        × (s'.world ≡ api.object_std_dtor (as_mut_object p) (api.drop_any d s.world))
  free_object_lem p d s h stored =
      (freed p d s, free_object-freed p d s h stored, rw ==-self refl, refl)

module _ {H D W : Type 0} ⦃flags : PhpFlags⦄ (api : ObjectApi H D W) (class_names : List (List ℕ))
    (fuel : ℕ) (c : ClassEntity H D W) (l : List ℕ) (real : ℕ) where
  abbrev pub address : ℕ → Objects D W → ℕ
  address ce s = (api.object_alloc ce s.world).0

  -- What the engine has done when the constructor runs.
  unfoldable pub prepared : ℕ → Objects D W → W
  unfolding as_mut_object
  prepared ce s =
      let object = as_mut_object (address ce s) in
      api.rebuild_object_properties object (
        api.object_properties_init object ce
          (api.object_std_init object ce (api.object_alloc ce s.world).1))

  -- If the nearest registered class of `ce` is the entity's and its state's constructor returns, an object
  -- is created whose state is the constructor's and which can be cloned exactly if the class has a
  -- cloner; freeing it returns, drops that state, leaves none, and then destroys the object.
  pub create_object-free_object :
      (ce : ℕ) (s : Objects D W) (d : D) (w : W)
      → IsInstance api class_names fuel c l real ce s
      → c.state_constructor (prepared ce s) ≡ returns (d, w)
      → (s₁ s₂ : Objects D W) × (create_object api class_names fuel ce s
          ≡ returns (as_mut_object (address ce s), s₁))
        × (s₁.states (address ce s) ≡ some d)
        × (s₁.handlers (as_mut_object (address ce s))
            ≡ some (record { offset = offset; has_clone_obj = is_some c.state_cloner }))
        × (free_object api (as_mut_object (address ce s)) s₁ ≡ returns (tt, s₂))
        × (s₂.states (address ce s) ≡ none)
        × (s₂.world ≡ api.object_std_dtor (as_mut_object (address ce s)) (api.drop_any d w))
  unfolding new_object_of prepared on_world set_handlers set_state
  create_object-free_object ce s d w is built =
      let object = as_mut_object (address ce s) in
      let before : Objects D W = record {
        states = s.states;
        handlers = λ q.
            if q == object
            then some (record { offset = offset; has_clone_obj = is_some c.state_cloner })
            else s.handlers q;
        world = prepared ce s;
      } in
      let s₁ : Objects D W = record {
        states = λ q. if q == address ce s then some d else s.states q;
        handlers = λ q.
            if q == object
            then some (record { offset = offset; has_clone_obj = is_some c.state_cloner })
            else s.handlers q;
        world = w;
      } in
      let stored : s₁.states (address ce s) ≡ some d = rw ==-self refl in
      let (s₂, freed, gone, after) = free_object_lem api (address ce s) d s₁ is.not_null stored in
      (
        s₁,
        s₂,
        rw (create_object-hidden api class_names fuel c l real ce s is)
            (rw (run_lem c.state_constructor before d w built) refl),
        stored,
        rw ==-self refl,
        freed,
        gone,
        after,
      )

-- What PHP documents of the release of an object: it gives a reference back; with the last one, after the
-- object's destructor, which leaves the states as they are, it calls the class's `free_obj`.
module _ {H D W : Type 0} (api : ObjectApi H D W) (refcount : ℕ → W → ℕ)
    (release : ℕ → Steps (Objects D W) (Unit {0})) where
  pub record IsRelease : Type 0 where
    pub destructed : ℕ → W → W
    pub less_one : ℕ → W → W
    pub last :
        (object : ℕ) (s : Objects D W)
        → refcount object s.world ≡ 1
        → release object s ≡ free_object api object (record s { world = destructed object s.world })
    pub shared :
        (object : ℕ) (s : Objects D W)
        → 1 < refcount object s.world
        → release object s ≡ returns (tt, record s { world = less_one object s.world })
    pub counted :
        (object : ℕ) (w : W)
        → 1 < refcount object w
        → refcount object (less_one object w) + 1 ≡ refcount object w

module _ {H D W T : Type 0} (api : ObjectApi H D W) (downcast : D → Option T) (nothing : D)
    (refcount : ℕ → W → ℕ) (release : ℕ → Steps (Objects D W) (Unit {0})) where
  take_lem :
      (p : ℕ) (s : Objects D W) (d : D) (t : T)
      → p ≢ 0
      → s.states p ≡ some d
      → downcast d ≡ some t
      → take_state api downcast nothing refcount release (as_mut_object p) s
        ≡ returns (some t, record s { states = λ q. if q == p then some nothing else s.states q })
  unfolding take_state set_state
  take_lem p s d t nonnull stored cast =
      rw (place_lem p nonnull) (rw (read_lem p s d stored) (rw cast refl))

  -- `into_state` of an object whose state has the type asked for, where the release is as PHP
  -- documents it and a destructor leaves the states as they are. Of the last reference it returns
  -- the state itself: what is dropped with the object, after its destructor, is the placeholder,
  -- and the state is not. Of another reference it returns nothing, leaves all states as they are,
  -- and gives that one reference back.
  pub into_state-free_object :
      (is : IsRelease api refcount release) (p : ℕ) (s : Objects D W) (d : D) (t : T)
      → p ≢ 0
      → s.states p ≡ some d
      → downcast d ≡ some t
      → 0 < refcount (as_mut_object p) s.world
      → ((refcount (as_mut_object p) s.world ≡ 1)
          × ((s' : Objects D W) × (into_state api downcast nothing refcount release
                  (as_mut_object p)
                  s
                ≡ returns (some t, s'))
              × (s'.states p ≡ none)
              × (s'.world
                  ≡ api.object_std_dtor
                      (as_mut_object p)
                      (api.drop_any nothing (is.destructed (as_mut_object p) s.world)))))
        ⊎ ((1 < refcount (as_mut_object p) s.world)
            × ((s' : Objects D W) × (into_state api downcast nothing refcount release
                    (as_mut_object p)
                    s
                  ≡ returns (none, s'))
                × (s'.states ≡ s.states)
                × (refcount (as_mut_object p) s'.world + 1 ≡ refcount (as_mut_object p) s.world)))
  unfolding into_state
  into_state-free_object is p s d t nonnull stored cast held =
      elim (Bool-cases (refcount (as_mut_object p) s.world == 1)) [
        | inl e ↦
            let last : refcount (as_mut_object p) s.world ≡ 1 = ground arith in
            let taken : Objects D W = record s {
              states = λ q. if q == p then some nothing else s.states q;
            } in
            let ended : Objects D W = record taken {
              world = is.destructed (as_mut_object p) s.world;
            } in
            let (s', freed, gone, after) =
              free_object_lem api p nothing ended nonnull (rw ==-self refl) in
            inl (
              last,
              (
                s',
                rw e (
                    rw (take_lem p s d t nonnull stored cast)
                      (rw (is.last (as_mut_object p) taken last ∙ freed) refl)),
                gone,
                after,
              ),
            )
        | inr e ↦
            let more : 1 < refcount (as_mut_object p) s.world = ground arith in
            inr (
              more,
              (
                record s { world = is.less_one (as_mut_object p) s.world },
                rw e (rw (is.shared (as_mut_object p) s more) refl),
                refl,
                is.counted (as_mut_object p) s.world more,
              ),
            )
      ]
