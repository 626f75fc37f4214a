-- ===== src/Classes/Startup/Registered.antt =====
-- A class with states from its registration on (phper/src/classes.rs): what `ClassEntity::init` tells the
-- engine is what `create_object` finds.
use phper.Base.{
  ℕ, ◌^◌, ◌<◌, ◌≡◌, ◌≢◌, refl, ◌∙◌, true, Option, none, some, List, [], ◌∷◌, returns, length,
  is_some,
}
use phper.Functions.{PhpFlags}
use phper.Classes.{ClassSource, ClassEntity, class_function_entries}
use phper.Classes.Startup.{
  ClassApi, class_init, class_init_handler, implement_all, source, parent_ptr, in_world, on_world,
}
use phper.Classes.Startup.Binding.{at, bound, AllResolve, bind_lem}
use phper.Classes.Create.{
  ObjectApi, Objects, Handlers, offset, as_mut_object, create_object, free_object,
}
use phper.Classes.Create.Hidden.{IsInstance, is_registered}
use phper.Classes.Create.Lifecycle.{prepared, create_object-free_object}

module _ {H D W : Type 0} (classes : ClassApi H D W) (api : ObjectApi H D W) where
  -- The classes that the engine had in `w` are the same in `w'`.
  abbrev pub SameClasses : W → W → Type 0
  SameClasses w w' =
      (q : ℕ)
      → (api.class_name q w' ≡ api.class_name q w)
        × (api.parent_class q w' ≡ api.parent_class q w)
        × (api.builtin_functions q w' ≡ api.builtin_functions q w)

  -- The engine keeps what the class is registered with.
  pub record KeepsClass ⦃flags : PhpFlags⦄ (c : ClassEntity H D W) : Type 0 where
    pub registered_not_null :
        (w : W) → (classes.register_internal_class c.class_name (class_function_entries c) w).0 ≢ 0
    pub registered :
        (w : W) (q : ℕ) (w' : W)
        → classes.register_internal_class c.class_name (class_function_entries c) w ≡ (q, w')
        → (api.class_name q w' ≡ c.class_name)
          × (api.parent_class q w' ≡ 0)
          × (api.builtin_functions q w' ≡ class_function_entries c)
    pub implements_keeps : (ce i : ℕ) (w : W) → SameClasses w (classes.class_implements ce i w)
    pub create_object_keeps : (ce : ℕ) (w : W) → SameClasses w (classes.set_create_object ce w)
    pub alloc_keeps : (ce : ℕ) (w : W) → SameClasses w (api.object_alloc ce w).1
    pub alloc_not_null : (ce : ℕ) (w : W) → (api.object_alloc ce w).0 ≢ 0

  same_then : (w₁ w₂ w₃ : W) → SameClasses w₁ w₂ → SameClasses w₂ w₃ → SameClasses w₁ w₃
  same_then w₁ w₂ w₃ a b q = ((b q).0 ∙ (a q).0, (b q).1 ∙ (a q).1, (b q).2 ∙ (a q).2)

  module _ ⦃flags : PhpFlags⦄ (c : ClassEntity H D W) (keeps : KeepsClass c) where
    implement_all-same :
        (statics : ℕ → ℕ) (ce : ℕ) (l : List (ClassSource W)) (w : W)
        → AllResolve statics l
        → (w' : W) × (implement_all classes ce l (at statics w) ≡ returns (tt, at statics w'))
          × SameClasses w w'
    unfolding implement_all source on_world
    implement_all-same statics ce [] w h = (w, refl, λ q. (refl, refl, refl))
    implement_all-same statics ce (f ∷ rest) w h =
        let (p, e) = h.0 w in
        let (w', e', same) =
          implement_all-same statics ce rest (classes.class_implements ce p w) h.1 in
        (w', rw e e', same_then w _ w' (keeps.implements_keeps ce p w) same)

    -- The engine has the class under this name, without a parent, with these entries.
    record IsKnown (ce : ℕ) (w : W) : Type 0 where
      not_null : ce ≢ 0
      name_eq : api.class_name ce w ≡ c.class_name
      parent_eq : api.parent_class ce w ≡ 0
      entries_eq : api.builtin_functions ce w ≡ class_function_entries c

    class_init-IsKnown :
        (statics : ℕ → ℕ) (w : W)
        → c.parent ≡ none
        → ((ce : ℕ) → AllResolve (bound c.bind_class ce statics) c.interfaces)
        → (ce : ℕ) × (w' : W) × (class_init classes c (at statics w)
            ≡ returns (ce, at (bound c.bind_class ce statics) w'))
          × IsKnown ce w'
    unfolding class_init class_init_handler parent_ptr in_world on_world
    class_init-IsKnown statics w root interfaces =
        let slots = class_function_entries c in
        let (ce, w₁) = classes.register_internal_class c.class_name slots w in
        let (w₂, done, same) =
          implement_all-same (bound c.bind_class ce statics) ce c.interfaces w₁ (interfaces ce) in
        let known = keeps.registered w ce w₁ refl in
        let w₃ = classes.set_create_object ce w₂ in
        let still = same_then w₁ w₂ w₃ same (keeps.create_object_keeps ce w₂) ce in
        (
          ce,
          w₃,
          rw root (rw bind_lem (rw done refl)),
          record {
            not_null = keeps.registered_not_null w;
            name_eq = still.0 ∙ known.0;
            parent_eq = still.1 ∙ known.1;
            entries_eq = still.2 ∙ known.2;
          },
        )

    known-IsInstance :
        (ce fuel : ℕ) (class_names : List (List ℕ)) (s : Objects D W)
        → IsKnown ce s.world
        → 1 < fuel
        → length c.class_name < 2 ^ 31
        → is_registered class_names c.class_name ≡ true
        → IsInstance api class_names fuel c (ce ∷ []) ce ce s
    known-IsInstance ce fuel class_names s known enough short named = record {
      ancestry = (refl, known.not_null, rw known.name_eq short, known.parent_eq);
      enough = enough;
      is_nearest = rw known.name_eq (rw named refl);
      not_null = keeps.alloc_not_null ce s.world;
      entries = (keeps.alloc_keeps ce s.world ce).2 ∙ known.entries_eq;
    }

    -- Over an engine that keeps what the class is registered with, `init` of a class without a
    -- parent, whose interfaces are found, returns a class entry. If the module has the class, its
    -- name has fewer than 2^31 bytes and no NUL byte, its constructor does not panic, and the fuel
    -- exceeds 1, then whatever objects there are, one of the class can be created: its state is
    -- what the constructor makes, it can be cloned exactly if the class has a cloner, and freeing
    -- it drops that state before the object is destroyed.
    pub class_init-create_object :
        (statics : ℕ → ℕ) (w : W) (class_names : List (List ℕ)) (fuel : ℕ) (states : ℕ → Option D)
        (handlers : ℕ → Option Handlers)
        → c.parent ≡ none
        → ((ce : ℕ) → AllResolve (bound c.bind_class ce statics) c.interfaces)
        → 1 < fuel
        → length c.class_name < 2 ^ 31
        → is_registered class_names c.class_name ≡ true
        → ((w : W) → (d : D) × (w' : W) × (c.state_constructor w ≡ returns (d, w')))
        → (ce : ℕ) × (w' : W) × (w₀ : W) × (w₁ : W) × (p : ℕ) × (d : D) × (s₁ : Objects D W)
          × (s₂ : Objects D W) × (class_init classes c (at statics w)
              ≡ returns (ce, at (bound c.bind_class ce statics) w'))
          × (create_object api class_names fuel ce
                (record { states = states; handlers = handlers; world = w' })
              ≡ returns (as_mut_object p, s₁))
          × (c.state_constructor w₀ ≡ returns (d, w₁))
          × (s₁.states p ≡ some d)
          × (s₁.handlers (as_mut_object p)
              ≡ some (record { offset = offset; has_clone_obj = is_some c.state_cloner }))
          × (free_object api (as_mut_object p) s₁ ≡ returns (tt, s₂))
          × (s₂.states p ≡ none)
          × (s₂.world ≡ api.object_std_dtor (as_mut_object p) (api.drop_any d w₁))
    class_init-create_object statics w class_names fuel states handlers root interfaces enough short
          named built =
        let (ce, w', made, known) = class_init-IsKnown statics w root interfaces in
        let s : Objects D W = record { states = states; handlers = handlers; world = w' } in
        let is = known-IsInstance ce fuel class_names s known enough short named in
        let w₀ = prepared api class_names fuel c (ce ∷ []) ce ce s in
        let (d, w₁, constructed) = built w₀ in
        let (s₁, s₂, runs, stored, cloneable, freed, gone, after) =
          create_object-free_object api class_names fuel c (ce ∷ []) ce ce s d w₁ is constructed in
        (
          ce,
          w',
          w₀,
          w₁,
          (api.object_alloc ce w').0,
          d,
          s₁,
          s₂,
          made,
          runs,
          constructed,
          stored,
          cloneable,
          freed,
          gone,
          after,
        )
