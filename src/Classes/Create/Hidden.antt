-- ===== src/Classes/Create/Hidden.antt =====
-- `create_object` and `clone_object` (phper/src/classes.rs) find the state's constructor and cloner that
-- `function_entries` hid, in the nearest ancestor that the extension registered.
use phper.Base.{
  ℕ, zero, suc, ◌^◌, ◌<◌, ◌≡◌, ◌≢◌, refl, Bool, true, false, not, ◌&&◌, Option, none, some, List,
  [], ◌∷◌, ◌++◌, returns, arith, length, ◌==◌, if◌then◌else◌, Bool-cases, inl, inr, is_some,
  bytes_eq, has_nul,
}
use phper.Base.Steps.{Steps, ◌>>=◌, ◌>>◌, modify, done, gets, try}
use phper.Functions.{PhpFlags, MethodEntity}
use phper.Strings.Terminator.{to_c_str_lem}
use phper.Values.Union.{from_ptr}
use phper.Classes.{
  ClassEntity, Slot, zeroed, constructor_slot, cloner_slot, method_slots, class_function_entries,
  StateCloner,
}
use phper.Classes.Walk.{
  find_null, offset_by, read_constructor, read_cloner, not_zero, fname_is_null,
}
use phper.Classes.Create.{
  ObjectApi, Objects, offset, any_named, real_ce_loop, find_real_ce, real_ce, create_object,
  clone_object, in_world, on_world, set_handlers, set_state, run_closure, read_state, as_mut_object,
  from_mut_object_ptr,
}

module _ {H D W : Type 0} ⦃flags : PhpFlags⦄ where
  abbrev hidden : ClassEntity H D W → List (Slot H D W)
  hidden c = zeroed ∷ constructor_slot c.state_constructor ∷ cloner_slot c.state_cloner ∷ []

  past_methods :
      (l : List (MethodEntity H)) (more : List (Slot H D W))
      → find_null (method_slots l ++ (zeroed ∷ more)) ≡ returns (zeroed ∷ more)
  unfolding find_null method_slots fname_is_null
  past_methods [] more = refl
  past_methods (m ∷ rest) more = past_methods rest more

  -- The first null entry of a class's entries is the one behind its methods.
  find_null-class_function_entries :
      (c : ClassEntity H D W) → find_null (class_function_entries c) ≡ returns (hidden c)
  unfolding class_function_entries
  find_null-class_function_entries c = past_methods c.method_entities _

-- A name that a registered class has; none with a NUL byte, as those of anonymous classes, is one.
abbrev pub is_registered : List (List ℕ) → List ℕ → Bool
is_registered [] name = false
is_registered (c ∷ rest) name =
    if not (has_nul name) && bytes_eq name c then true else is_registered rest name

any_named_lem :
    (class_names : List (List ℕ)) (name : List ℕ)
    → length name < 2 ^ 31
    → any_named class_names name ≡ returns (is_registered class_names name)
unfolding any_named
any_named_lem [] name h = refl
any_named_lem (c ∷ rest) name h =
    rw (to_c_str_lem name h, any_named)
      (elim (Bool-cases (has_nul name)) [
        | inl bad ↦ rw bad (any_named_lem rest name h)
        | inr good ↦ rw good (elim (Bool-cases (bytes_eq name c)) [
          | inl same ↦ rw same refl
          | inr apart ↦ rw apart (any_named_lem rest name h)
        ])
      ])

module _ {H D W : Type 0} (api : ObjectApi H D W) (class_names : List (List ℕ)) (w : W) where
  -- A class and its ancestors, from the nearest on, with names that are not too long.
  abbrev pub IsAncestry : ℕ → List ℕ → Type 0
  IsAncestry ce [] = ce ≡ 0
  IsAncestry ce (c ∷ rest) =
      (c ≡ ce)
      × (ce ≢ 0)
      × (length (api.class_name ce w) < 2 ^ 31)
      × IsAncestry (api.parent_class ce w) rest

  abbrev pub nearest : List ℕ → Option ℕ
  nearest [] = none
  nearest (c ∷ rest) =
      if is_registered class_names (api.class_name c w) then some c else nearest rest

  -- `find_real_ce` ends with the nearest ancestor whose name a registered class has, if the fuel
  -- exceeds the number of ancestors.
  pub find_real_ce-nearest :
      (fuel ce : ℕ) (l : List ℕ)
      → IsAncestry ce l
      → length l < fuel
      → find_real_ce api class_names fuel ce w ≡ returns (nearest l)
  unfolding find_real_ce real_ce_loop
  find_real_ce-nearest zero ce l h enough = absurd (omega arith)
  find_real_ce-nearest (suc n) ce [] h enough = rw h refl
  find_real_ce-nearest (suc n) ce (c ∷ rest) h enough =
      let nonzero : (ce == 0) ≡ false = ground (arith, h.1) in
      let more = find_real_ce-nearest n (api.parent_class ce w) rest h.3 (omega arith) in
      rw (nonzero, h.0, any_named_lem class_names (api.class_name ce w) h.2)
        (elim (Bool-cases (is_registered class_names (api.class_name ce w))) [
          | inl named ↦ rw named refl
          | inr unnamed ↦ rw unnamed more
        ])

module _ {H D W : Type 0} (api : ObjectApi H D W) where
  -- The object of class `ce` at `p`, with the state that the constructor makes stored in front of it.
  unfoldable pub new_object_of : ClassEntity H D W → (ce p : ℕ) → Steps (Objects D W) ℕ
  unfolding as_mut_object on_world set_handlers run_closure set_state
  new_object_of c ce p = do
    let object = as_mut_object p
    on_world (api.object_std_init object ce)
    on_world (api.object_properties_init object ce)
    on_world (api.rebuild_object_properties object)
    modify (
        set_handlers object
          (some (record { offset = offset; has_clone_obj = is_some c.state_cloner })))
    state ← run_closure c.state_constructor
    modify (set_state p (some state))
    done object

  -- The clone at `p` of an object of class `ce`: the members and handlers of the original, and the
  -- state that the cloner makes of the original's.
  unfoldable pub clone_of : StateCloner D W → (ce object p : ℕ) → Steps (Objects D W) ℕ
  unfolding as_mut_object on_world set_handlers run_closure set_state read_state from_mut_object_ptr
  clone_of cloner ce object p = do
    let new_object = as_mut_object p
    on_world (api.object_std_init new_object ce)
    on_world (api.object_properties_init new_object ce)
    on_world (api.clone_members new_object object)
    h ← gets (λ s. s.handlers object)
    modify (set_handlers new_object h)
    q ← try (from_mut_object_ptr object)
    d ← read_state q
    state ← run_closure (cloner d)
    modify (set_state p (some state))
    done new_object

module _ {H D W : Type 0} ⦃flags : PhpFlags⦄ (api : ObjectApi H D W) (class_names : List (List ℕ))
    (fuel : ℕ) (c : ClassEntity H D W) (l : List ℕ) (real : ℕ) where
  -- The class's nearest registered ancestor is `real`, and the allocation gives an address that is not
  -- null and keeps the entries that `c` registered for it.
  pub record IsInstance (ce : ℕ) (s : Objects D W) : Type 0 where
    pub ancestry : IsAncestry api class_names s.world ce l
    pub enough : length l < fuel
    pub is_nearest : nearest api class_names s.world l ≡ some real
    pub not_null : (api.object_alloc ce s.world).0 ≢ 0
    pub entries :
        api.builtin_functions real (api.object_alloc ce s.world).1 ≡ class_function_entries c

  real_ce_lem :
      (ce : ℕ) (s : Objects D W)
      → IsInstance ce s
      → real_ce api class_names fuel ce s ≡ returns (real, s)
  unfolding real_ce
  real_ce_lem ce s is =
      rw (find_real_ce-nearest api class_names s.world fuel ce l is.ancestry is.enough)
        (rw is.is_nearest refl)

  alloc_lem :
      (ce : ℕ) (s : Objects D W)
      → IsInstance ce s
      → from_ptr (api.object_alloc ce s.world).0 ≡ returns (api.object_alloc ce s.world).0
  unfolding from_ptr
  alloc_lem ce s is = ground (arith, is.not_null)

  -- `create_object` for the class or a class that extends it is `new_object_of` with the constructor and
  -- the cloner that the class registered.
  pub create_object-hidden :
      (ce : ℕ) (s : Objects D W)
      → IsInstance ce s
      → create_object api class_names fuel ce s
        ≡ new_object_of api c ce
            (api.object_alloc ce s.world).0
            (record s { world = (api.object_alloc ce s.world).1 })
  unfolding create_object new_object_of in_world offset_by read_constructor not_zero
  create_object-hidden ce s is =
      rw (real_ce_lem ce s is)
        (rw (alloc_lem ce s is) (rw is.entries (rw (find_null-class_function_entries c) refl)))

  -- Cloning an object whose nearest registered class has a cloner makes an object of the same class, with
  -- the original's members and handlers, and with the state that this cloner makes of the original's.
  pub clone_object-hidden :
      (object : ℕ) (cloner : StateCloner D W) (s : Objects D W)
      → IsInstance (api.class_of object s.world) s
      → c.state_cloner ≡ some cloner
      → clone_object api class_names fuel object s
        ≡ clone_of api cloner
            (api.class_of object s.world)
            object
            (api.object_alloc (api.class_of object s.world) s.world).0
            (record s { world = (api.object_alloc (api.class_of object s.world) s.world).1 })
  unfolding clone_object clone_of in_world offset_by read_cloner
  clone_object-hidden object cloner s is has = rw (real_ce_lem _ s is) (
      rw (alloc_lem _ s is) (rw is.entries (rw (find_null-class_function_entries c) (rw has refl))))
