-- ===== src/Classes/Startup/Binding.antt =====
-- What `ClassEntity::init` (phper/src/classes.rs) leaves in the statics.
use phper.Base.{
  ℕ, ◌≡◌, ◌≢◌, ◌⊎◌, refl, ap, Option, none, some, List, [], ◌∷◌, returns, panics, arith, ◌==◌,
  if◌then◌else◌, Bool-cases, inl, inr,
}
use phper.Base.Steps.{done}
use phper.Functions.{PhpFlags}
use phper.Values.Union.{from_ptr}
use phper.Classes.{
  Registry, ClassSource, ClassEntity, InterfaceEntity, Slot, class_function_entries,
  interface_function_entries,
}
use phper.Classes.Startup.{
  ClassApi, as_class_entry, bind_static, bind_option, class_init, interface_init,
  class_init_handler, interface_init_handler, implement_all, source, parent_ptr, in_world, on_world,
}

module _ {W : Type 0} where
  abbrev pub at : (ℕ → ℕ) → W → Registry W
  at statics w = record { statics = statics; world = w }

  -- With these statics the closure returns a class, whatever the engine keeps.
  abbrev pub Resolves : (ℕ → ℕ) → ClassSource W → Type 0
  Resolves statics f = (w : W) → (p : ℕ) × (f (at statics w) ≡ returns p)

  abbrev pub AllResolve : (ℕ → ℕ) → List (ClassSource W) → Type 0
  AllResolve statics [] = Unit
  AllResolve statics (f ∷ rest) = Resolves statics f × AllResolve statics rest

  abbrev pub ParentResolves : (ℕ → ℕ) → Option (ClassSource W) → Type 0
  ParentResolves statics none = Unit
  ParentResolves statics (some f) = Resolves statics f

  -- The parent that the closure returns; a null pointer where there is none.
  abbrev pub IsParent : (ℕ → ℕ) → W → Option (ClassSource W) → ℕ → Type 0
  IsParent statics w none p = p ≡ 0
  IsParent statics w (some f) p = f (at statics w) ≡ returns p

  parent_lem :
      (statics : ℕ → ℕ) (parent : Option (ClassSource W)) (w : W)
      → ParentResolves statics parent
      → (p : ℕ) × (parent_ptr parent (at statics w) ≡ returns (p, at statics w))
        × IsParent statics w parent p
  unfolding parent_ptr source
  parent_lem statics none w h = (0, refl, refl)
  parent_lem statics (some f) w h = let (p, e) = h w in (p, rw e refl, e)

-- A bound static holds the class entry.
abbrev pub bound : Option ℕ → ℕ → (ℕ → ℕ) → ℕ → ℕ
bound none ce statics i = statics i
bound (some s) ce statics i = if i == s then ce else statics i

module _ {W : Type 0} where
  pub bind_lem :
      (o : Option ℕ) (ce : ℕ) (statics : ℕ → ℕ) (w : W)
      → bind_option o ce (at statics w) ≡ at (bound o ce statics) w
  unfolding bind_option bind_static
  bind_lem none ce statics w = refl
  bind_lem (some s) ce statics w = refl

still_null :
    (o : Option ℕ) (ce : ℕ) (statics : ℕ → ℕ) (s : ℕ)
    → statics s ≡ 0
    → o ≢ some s
    → bound o ce statics s ≡ 0
still_null none ce statics s null other = null
still_null (some t) ce statics s null other = elim (Bool-cases (s == t)) [
  | inl same ↦ absurd (other (ap some (ground arith)))
  | inr apart ↦ rw apart null
]

-- What the engine is told of a class or an interface, call by call.
module _ {H D W : Type 0} (api : ClassApi H D W) where
  -- From `w` to `w'` the class entry `ce` is given the interfaces that the closures return, in order.
  abbrev pub Implemented : (ℕ → ℕ) → ℕ → List (ClassSource W) → W → W → Type 0
  Implemented statics ce [] w w' = w' ≡ w
  Implemented statics ce (f ∷ rest) w w' =
      (p : ℕ) × (f (at statics w) ≡ returns p)
      × Implemented statics ce rest (api.class_implements ce p w) w'

  -- From `w` to `w'` the engine registers the class by its name, its function entries and its parent,
  -- which gives `ce`; `ce` is then given the class's interfaces and `create_object`.
  pub record IsClassRegistered ⦃flags : PhpFlags⦄ (c : ClassEntity H D W) (statics : ℕ → ℕ) (w : W)
      (ce : ℕ) (w' : W) : Type 0 where
    pub parent_ce : ℕ
    pub registered : W
    pub implemented : W
    pub parent_found : IsParent statics w c.parent parent_ce
    pub registration :
        ((parent_ce ≡ 0)
          × (api.register_internal_class c.class_name (class_function_entries c) w
              ≡ (ce, registered)))
        ⊎ ((parent_ce ≢ 0)
            × (api.register_internal_class_ex c.class_name (class_function_entries c) parent_ce w
                ≡ (ce, registered)))
    pub interfaces_given :
        Implemented (bound c.bind_class ce statics) ce c.interfaces registered implemented
    pub finished : w' ≡ api.set_create_object ce implemented

  -- The same of an interface, by its name and function entries and what it extends.
  pub record IsInterfaceRegistered ⦃flags : PhpFlags⦄ (i : InterfaceEntity H W) (statics : ℕ → ℕ)
      (w : W) (ce : ℕ) (w' : W) : Type 0 where
    pub registered : W
    pub registration :
        api.register_internal_interface i.interface_name (interface_function_entries i) w
        ≡ (ce, registered)
    pub parents_given :
        Implemented (bound i.bind_interface ce statics) ce i.extends_of registered w'

  implement_lem :
      (statics : ℕ → ℕ) (ce : ℕ) (l : List (ClassSource W)) (w : W)
      → AllResolve statics l
      → (w' : W) × (implement_all api ce l (at statics w) ≡ returns (tt, at statics w'))
        × Implemented statics ce l w w'
  unfolding implement_all source on_world
  implement_lem statics ce [] w h = (w, refl, refl)
  implement_lem statics ce (f ∷ rest) w h =
      let (p, e) = h.0 w in
      let (w', e', given) = implement_lem statics ce rest (api.class_implements ce p w) h.1 in
      (w', rw e e', (p, e, given))

  handler_lem :
      (name : List ℕ) (slots : List (Slot H D W)) (parent : ℕ) (statics : ℕ → ℕ) (w : W)
      → (ce : ℕ) × (w' : W) × (class_init_handler api name slots parent (at statics w)
          ≡ returns (ce, at statics w'))
        × (((parent ≡ 0) × (api.register_internal_class name slots w ≡ (ce, w')))
            ⊎ ((parent ≢ 0) × (api.register_internal_class_ex name slots parent w ≡ (ce, w'))))
  unfolding class_init_handler in_world
  handler_lem name slots parent statics w = elim (Bool-cases (parent == 0)) [
    | inl root ↦ (
      (api.register_internal_class name slots w).0,
      (api.register_internal_class name slots w).1,
      rw root refl,
      inl (ground arith, refl),
    )
    | inr child ↦ (
      (api.register_internal_class_ex name slots parent w).0,
      (api.register_internal_class_ex name slots parent w).1,
      rw child refl,
      inr ((λ null. absurd (ground arith)), refl),
    )
  ]

  module _ ⦃flags : PhpFlags⦄ where
    -- A class whose parent is found before it is bound, and whose interfaces are found after, is
    -- registered with the engine by its name, its function entries and its parent, if it has one, and then
    -- given its interfaces and `create_object`; its static holds the class entry that the registration
    -- gave, and every other static what it held before.
    pub class_init-statics :
        (c : ClassEntity H D W) (statics : ℕ → ℕ) (w : W)
        → ParentResolves statics c.parent
        → ((ce : ℕ) → AllResolve (bound c.bind_class ce statics) c.interfaces)
        → (ce : ℕ) × (w' : W) × (class_init api c (at statics w)
            ≡ returns (ce, at (bound c.bind_class ce statics) w'))
          × IsClassRegistered c statics w ce w'
    unfolding class_init on_world
    class_init-statics c statics w parent interfaces =
        let (p, found, is_parent) = parent_lem statics c.parent w parent in
        let (ce, w₁, made, registration) =
          handler_lem c.class_name (class_function_entries c) p statics w in
        let (w₂, done, given) =
          implement_lem (bound c.bind_class ce statics) ce c.interfaces w₁ (interfaces ce) in
        (
          ce,
          api.set_create_object ce w₂,
          rw found (rw made (rw bind_lem (rw done refl))),
          record {
            parent_ce = p;
            registered = w₁;
            implemented = w₂;
            parent_found = is_parent;
            registration = registration;
            interfaces_given = given;
            finished = refl;
          },
        )

    -- An interface binds its static as a class does.
    pub interface_init-statics :
        (i : InterfaceEntity H W) (statics : ℕ → ℕ) (w : W)
        → ((ce : ℕ) → AllResolve (bound i.bind_interface ce statics) i.extends_of)
        → (ce : ℕ) × (w' : W) × (interface_init api i (at statics w)
            ≡ returns (ce, at (bound i.bind_interface ce statics) w'))
          × IsInterfaceRegistered i statics w ce w'
    unfolding interface_init interface_init_handler in_world
    interface_init-statics i statics w extends =
        let (ce, w₁) =
          api.register_internal_interface i.interface_name (interface_function_entries i) w in
        let (w₂, done, given) =
          implement_lem (bound i.bind_interface ce statics) ce i.extends_of w₁ (extends ce) in
        (
          ce,
          w₂,
          rw bind_lem (rw done refl),
          record { registered = w₁; registration = refl; parents_given = given },
        )

    -- A class cannot be registered before an interface that it takes from a static: while the static is
    -- not bound, and is not the class's own, `init` panics.
    pub class_init-unbound :
        (c : ClassEntity H D W) (statics : ℕ → ℕ) (w : W) (s : ℕ) (rest : List (ClassSource W))
        → ParentResolves statics c.parent
        → c.interfaces ≡ (as_class_entry s ∷ rest)
        → statics s ≡ 0
        → c.bind_class ≢ some s
        → class_init api c (at statics w) ≡ panics
    unfolding class_init implement_all source as_class_entry from_ptr
    class_init-unbound c statics w s rest parent first null other =
        let (p, found, is_parent) = parent_lem statics c.parent w parent in
        let (ce, w₁, made, registration) =
          handler_lem c.class_name (class_function_entries c) p statics w in
        rw found (
          rw made
            (rw (bind_lem, first) (rw (still_null c.bind_class ce statics s null other) refl)))
