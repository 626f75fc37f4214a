-- ===== src/Classes/Create/Views.antt =====
-- A handler's reads and writes of a state (phper/src/objects.rs).
use phper.Base.{
  ℕ, ◌+◌, ◌-◌, ◌≡◌, ◌≢◌, refl, false, Option, none, some, returns, panics, arith, ◌==◌, ==-self,
  if◌then◌else◌,
}
use phper.Base.Steps.{Steps}
use phper.Classes.Create.{ObjectApi, Objects, as_mut_object, free_object}
use phper.Classes.Create.Places.{read_lem}
use phper.Classes.Create.Lifecycle.{free_object_lem}
use phper.Classes.Create.Handles.{
  from_object_ptr, as_state_obj, deref, into_raw_object, object_from_raw, object_into_raw,
}
use phper.Classes.Create.States.{StatePlace, as_state, as_mut_state, drop_state_object}

as_state_obj-as_mut_object : (p : ℕ) → p ≢ 0 → as_state_obj (as_mut_object p) ≡ returns p
unfolding as_state_obj from_object_ptr as_mut_object
as_state_obj-as_mut_object p h = let back : p + 16 - 16 ≡ p = omega arith in rw back (ground arith)

module _ {H D W T : Type 0} (api : ObjectApi H D W) (downcast : D → Option T) (any : T → D) where
  as_state_lem :
      (p : ℕ) (s : Objects D W) (d : D) (t : T)
      → s.states p ≡ some d
      → downcast d ≡ some t
      → as_state downcast any p s ≡ returns (t, s)
  unfolding as_state
  as_state_lem p s d t stored cast = rw (read_lem p s d stored) (rw cast refl)

  abbrev written : ℕ → T → Objects D W → Objects D W
  written p y s = record s { states = λ q. if q == p then some (any y) else s.states q }

  -- Where the state has the type asked for, it is found from its object, `as_state` and `as_mut_state`
  -- give the same value, and what is written through `as_mut_state` is what `as_state` reads then and
  -- what is dropped when the object is freed; the state at any other place stays.
  pub as_state-as_mut_state :
      (p q : ℕ) (s : Objects D W) (d : D) (t y : T)
      → p ≢ 0
      → q ≢ p
      → s.states p ≡ some d
      → downcast d ≡ some t
      → downcast (any y) ≡ some y
      → (place : StatePlace T (Objects D W)) × (freed : Objects D W) × (as_state_obj
            (as_mut_object p)
          ≡ returns p)
        × (as_state downcast any p s ≡ returns (t, s))
        × (as_mut_state downcast any p s ≡ returns (place, s))
        × (place.content ≡ t)
        × (as_state downcast any p (place.write y s) ≡ returns (y, place.write y s))
        × ((place.write y s).states q ≡ s.states q)
        × (free_object api (as_mut_object p) (place.write y s) ≡ returns (tt, freed))
        × (freed.world ≡ api.object_std_dtor (as_mut_object p) (api.drop_any (any y) s.world))
  unfolding as_mut_state
  as_state-as_mut_state p q s d t y h apart stored cast up =
      let here : (written p y s).states p ≡ some (any y) = rw ==-self refl in
      let other : (q == p) ≡ false = ground arith in
      let (freed, run, gone, after) = free_object_lem api p (any y) (written p y s) h here in
      (
        record { content = t; write = λ y s. written p y s },
        freed,
        as_state_obj-as_mut_object p h,
        as_state_lem p s d t stored cast,
        rw (read_lem p s d stored) (rw cast refl),
        refl,
        as_state_lem p (written p y s) (any y) y here up,
        rw other refl,
        run,
        after,
      )

  -- A state of another type is a panic.
  as_state-panics :
      (p : ℕ) (s : Objects D W) (d : D)
      → s.states p ≡ some d
      → downcast d ≡ none
      → as_state downcast any p s ≡ panics
  unfolding as_state
  as_state-panics p s d stored cast = rw (read_lem p s d stored) (rw cast refl)

module _ {D W : Type 0} (release : ℕ → Steps (Objects D W) (Unit {0})) where
  -- The drop of a `StateObject` releases its object.
  drop_state_object_lem :
      (p : ℕ) (s : Objects D W)
      → p ≢ 0
      → drop_state_object release p s ≡ release (as_mut_object p) s
  unfolding drop_state_object into_raw_object deref object_from_raw object_into_raw as_mut_object
  drop_state_object_lem p s h =
      let here : (p == 0) ≡ false = ground arith in
      let there : (p + 16 == 0) ≡ false = ground arith in rw here (rw there (rw there refl))
