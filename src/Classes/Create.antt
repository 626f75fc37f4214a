-- ===== src/Classes/Create.antt =====
-- phper/src/classes.rs: `create_object`, `clone_object_common`, `free_object` and `find_real_ce`;
-- phper/src/objects.rs: `StateObj`, whose state stands in front of the engine's object, and
-- `StateObject::into_state`. The loop over a class's ancestors runs on fuel.
pub mod Hidden
pub mod Places
pub mod Lifecycle
pub mod Cloning
pub mod Handles
pub mod States
pub mod Views
pub mod History
use phper.Base.{
  ℕ, zero, suc, ◌+◌, ◌-◌, Bool, true, false, Option, none, some, List, [], ◌∷◌, Outcome, returns,
  panics, undefined, ◌==◌, if◌then◌else◌, bytes_eq, is_some, Result, ok, err, unwrap,
}
use phper.Base.Steps.{Steps, ◌>>=◌, ◌>>◌, modify, done, gets, try}
use phper.Strings.{to_c_str}
use phper.Values.Union.{from_ptr}
use phper.Errors.{FromBytesWithNulError}
use phper.Classes.Walk.{find_null, offset_by, read_constructor, read_cloner, not_zero}
use phper.Classes.{
  StateConstructor, StateCloner, Slot, method, zeroed, constructor_slot, cloner_slot,
}

-- `zend_object_alloc`, `zend_object_std_init` and its like (object, class), and what the fields of the
-- engine's structures hold.
pub record ObjectApi (H D W : Type 0) : Type 0 where
  pub class_name : ℕ → W → List ℕ
  pub parent_class : ℕ → W → ℕ
  pub builtin_functions : ℕ → W → List (Slot H D W)
  pub class_of : ℕ → W → ℕ
  pub object_alloc : ℕ → W → ℕ × W
  pub object_std_init : ℕ → ℕ → W → W
  pub object_properties_init : ℕ → ℕ → W → W
  pub rebuild_object_properties : ℕ → W → W
  pub clone_members : ℕ → ℕ → W → W
  pub object_std_dtor : ℕ → W → W
  -- The destructor of a boxed state.
  pub drop_any : D → W → W

-- The handlers that `create_object` sets; `free_obj` is always `free_object`.
pub record Handlers : Type 0 where
  pub offset : ℕ
  pub has_clone_obj : Bool

-- The states by the address of the `StateObj`, the handlers by the address of the object; no state
-- stands where none was stored or it was dropped.
pub record Objects (D W : Type 0) : Type 0 where
  pub states : ℕ → Option D
  pub handlers : ℕ → Option Handlers
  pub world : W

-- `StateObj::offset`: the size of the pointer to a `dyn Any`.
abbrev pub offset : ℕ
offset = 16

-- `StateObj::as_mut_object` and `StateObj::from_mut_object_ptr`.
unfoldable pub as_mut_object : ℕ → ℕ
as_mut_object p = p + offset

unfoldable pub from_mut_object_ptr : ℕ → Outcome ℕ
unfolding from_ptr
from_mut_object_ptr object = from_ptr (object - offset)

abbrev names_equal : Result (List ℕ) FromBytesWithNulError → List ℕ → Bool
names_equal (ok name) registered = bytes_eq name registered
names_equal (err e) registered = false

-- The loop over the registered classes.
any_named : List (List ℕ) → List ℕ → Outcome Bool
unfolding to_c_str
any_named [] name = returns false
any_named (registered ∷ rest) name =
    let more = any_named rest name in
    elim (to_c_str name) [
      | returns c ↦ if names_equal c registered then returns true else more
      | panics ↦ panics
      | undefined ↦ undefined
    ]

module _ {D W : Type 0} where
  on_world : (W → W) → Steps (Objects D W) (Unit {0})
  on_world f = modify (λ s. record s { world = f s.world })

  in_world : {A : Type 0} → (W → A × W) → Steps (Objects D W) A
  in_world f s = let (a, w) = f s.world in returns (a, record s { world = w })

  unfoldable pub run_closure : (W → Outcome (D × W)) → Steps (Objects D W) D
  run_closure f s = elim (f s.world) [
    | returns r ↦ returns (r.0, record s { world = r.1 })
    | panics ↦ panics
    | undefined ↦ undefined
  ]

  -- `*state_object.as_mut_any_state() = data`.
  set_state : ℕ → Option D → Objects D W → Objects D W
  set_state p d s = record s { states = λ q. if q == p then d else s.states q }

  set_handlers : ℕ → Option Handlers → Objects D W → Objects D W
  set_handlers o h s = record s { handlers = λ q. if q == o then h else s.handlers q }

  unfoldable pub read_state : ℕ → Steps (Objects D W) D
  read_state p s = elim (s.states p) [ none ↦ undefined | some d ↦ returns (d, s) ]

module _ {H D W : Type 0} (api : ObjectApi H D W) (class_names : List (List ℕ)) (fuel : ℕ) where
  real_ce_loop : ℕ → ℕ → W → Outcome (Option ℕ)
  unfolding any_named
  real_ce_loop zero ce w = undefined
  real_ce_loop (suc n) ce w =
      let more = real_ce_loop n (api.parent_class ce w) w in
      if ce == 0 then returns none else elim (any_named class_names (api.class_name ce w)) [
        | returns true ↦ returns (some ce)
        | returns false ↦ more
        | panics ↦ panics
        | undefined ↦ undefined
      ]

  unfoldable pub find_real_ce : ℕ → W → Outcome (Option ℕ)
  unfolding real_ce_loop
  find_real_ce ce w = real_ce_loop fuel ce w

  real_ce : ℕ → Steps (Objects D W) ℕ
  unfolding find_real_ce
  real_ce ce = do w ← gets (λ s. s.world); found ← try (find_real_ce ce w); try (unwrap found)

  unfoldable pub create_object : (ce : ℕ) → Steps (Objects D W) ℕ
  unfolding real_ce in_world from_ptr find_null offset_by read_constructor not_zero as_mut_object
      on_world set_handlers run_closure set_state
  create_object ce = do
    real ← real_ce ce
    p ← in_world (api.object_alloc ce)
    p ← try (from_ptr p)
    w ← gets (λ s. s.world)
    hidden ← try (find_null (api.builtin_functions real w))
    slot ← try (offset_by 1 hidden)
    state_constructor ← try (read_constructor slot)
    slot ← try (offset_by 2 hidden)
    let has_state_cloner = not_zero slot
    let object = as_mut_object p
    on_world (api.object_std_init object ce)
    on_world (api.object_properties_init object ce)
    on_world (api.rebuild_object_properties object)
    modify
        (set_handlers object (some (record { offset = offset; has_clone_obj = has_state_cloner })))
    state ← run_closure state_constructor
    modify (set_state p (some state))
    done object

  unfoldable pub clone_object : (object : ℕ) → Steps (Objects D W) ℕ
  unfolding real_ce in_world from_ptr find_null offset_by read_cloner as_mut_object on_world
      set_handlers run_closure set_state read_state from_mut_object_ptr
  clone_object object = do
    ce ← gets (λ s. api.class_of object s.world)
    real ← real_ce ce
    p ← in_world (api.object_alloc ce)
    p ← try (from_ptr p)
    w ← gets (λ s. s.world)
    hidden ← try (find_null (api.builtin_functions real w))
    slot ← try (offset_by 2 hidden)
    state_cloner ← try (read_cloner slot)
    let new_object = as_mut_object p
    on_world (api.object_std_init new_object ce)
    on_world (api.object_properties_init new_object ce)
    on_world (api.clone_members new_object object)
    h ← gets (λ s. s.handlers object)
    modify (set_handlers new_object h)
    q ← try (from_mut_object_ptr object)
    d ← read_state q
    state ← run_closure (state_cloner d)
    modify (set_state p (some state))
    done new_object

module _ {H D W : Type 0} (api : ObjectApi H D W) where
  -- `drop(Box::from_raw(self.any_state))`: a second drop is undefined.
  unfoldable pub drop_state : ℕ → Steps (Objects D W) (Unit {0})
  unfolding read_state on_world set_state
  drop_state p = do d ← read_state p; modify (set_state p none); on_world (api.drop_any d)

  unfoldable pub free_object : (object : ℕ) → Steps (Objects D W) (Unit {0})
  unfolding from_mut_object_ptr drop_state on_world
  free_object object = do
    p ← try (from_mut_object_ptr object)
    drop_state p
    on_world (api.object_std_dtor object)

  -- `StateObject::into_state` of the object at `object`, of state type `T`. `nothing` is the boxed `()`
  -- that is left in place of the state; `release` is the engine's release of the object.
  module _ {T : Type 0} (downcast : D → Option T) (nothing : D) (refcount : ℕ → W → ℕ)
      (release : ℕ → Steps (Objects D W) (Unit {0})) where
    take_state : ℕ → Steps (Objects D W) (Option T)
    unfolding read_state set_state from_mut_object_ptr
    take_state object = do
      p ← try (from_mut_object_ptr object)
      d ← read_state p
      modify (set_state p (some nothing))
      t ← try (unwrap (downcast d))
      done (some t)

    unfoldable pub into_state : (object : ℕ) → Steps (Objects D W) (Option T)
    unfolding take_state
    into_state object = do
      count ← gets (λ s. refcount object s.world)
      taken ← if count == 1 then take_state object else done none
      release object
      done taken
