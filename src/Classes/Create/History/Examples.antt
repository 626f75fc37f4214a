-- ===== src/Classes/Create/History/Examples.antt =====
-- The objects of a class with a state of one number, whose clones count one more, over an engine that
-- never gives a place twice (phper/src/classes.rs).
use phper.Base.{
  ℕ, ◌+◌, ◌≡◌, refl, true, false, not, none, some, List, [], ◌∷◌, returns, arith, bytes, map, ltb,
  ◌==◌, if◌then◌else◌,
}
use phper.Base.Places.{count}
use phper.Classes.{ClassEntity, class_function_entries}
use phper.Classes.Create.{ObjectApi, Objects}
use phper.Classes.Create.History.{Request, create, clone_of, change, free, apply_all}
use phper.Classes.Create.History.Laws.{View, IsQuiet, IsObjectEngine}
use phper.Classes.Create.History.Refinement.{apply_all-all_states}
use phper.Samples.{flags8}

-- The next place, and the states that were dropped.
abbrev World : Type 0
World = ℕ × List ℕ

abbrev counter : ClassEntity ℕ ℕ World
counter = record {
  class_name = bytes "Counter";
  state_constructor = λ w. returns (42, w);
  method_entities = [];
  property_entities = [];
  parent = none;
  interfaces = [];
  bind_class = none;
  state_cloner = some (λ d w. returns (d + 1, w));
}

abbrev places : ObjectApi ℕ ℕ World
places = record {
  class_name = λ ce w. bytes "Counter";
  parent_class = λ ce w. 0;
  builtin_functions = λ ce w. class_function_entries ⦃flags = flags8⦄ counter;
  class_of = λ o w. 10;
  object_alloc = λ ce w. (w.0, (w.0 + 1, w.1));
  object_std_init = λ o ce w. w;
  object_properties_init = λ o ce w. w;
  rebuild_object_properties = λ o w. w;
  clone_members = λ n o w. w;
  object_std_dtor = λ o w. w;
  drop_any = λ d w. (w.0, d ∷ w.1);
}

abbrev places_view : View ℕ World
places_view = record {
  good = λ w. not (w.0 == 0);
  live = λ q w. if q == 0 then false else ltb q w.0;
  dropped = λ w. w.1;
}

same_IsQuiet : (w : World) → places_view.good w ≡ true → IsQuiet places_view w w
same_IsQuiet w h = record { still_good = h; still_live = λ q live. live; none_dropped = refl }

places_IsObjectEngine :
    IsObjectEngine ⦃flags = flags8⦄ places
      (bytes "Counter" ∷ [])
      2
      counter
      (10 ∷ [])
      10
      10
      places_view
      (λ t. t)
      42
      (λ t. t + 1)
places_IsObjectEngine = record {
  instance_of = λ s h. record {
    ancestry = (refl, omega arith, omega arith, refl);
    enough = omega arith;
    is_nearest = refl;
    not_null = λ null. absurd (ground (arith, h, null));
    entries = refl;
  };
  class_kept = λ p w h live. refl;
  alloc_fresh = λ w h. ground arith;
  alloc_live = λ w h. ground arith;
  never_null = λ w h. refl;
  alloc_quiet = λ w h. record {
    still_good = ground arith;
    still_live = λ q live. ground arith;
    none_dropped = refl;
  };
  std_init_quiet = λ o w h. same_IsQuiet w h;
  properties_init_quiet = λ o w h. same_IsQuiet w h;
  rebuild_quiet = λ o w h. same_IsQuiet w h;
  clone_members_quiet = λ n o w h. same_IsQuiet w h;
  constructed = λ w h. (w, refl, same_IsQuiet w h);
  cloner = λ d w. returns (d + 1, w);
  has_cloner = refl;
  cloned = λ t w h. (w, refl, same_IsQuiet w h);
  drop_good = λ d w h. h;
  drop_live = λ d q w h. h;
  drop_counted = λ d w. refl;
  dtor_good = λ o w h. h;
  dtor_live = λ p q w apart h. h;
  dtor_quiet = λ o w. refl;
}

abbrev none_yet : Objects ℕ World
none_yet = record { states = λ p. none; handlers = λ o. none; world = (1, []) }

-- One object is made, changed, and cloned; the clone is freed, and another object is made.
abbrev a_history : List (Request ℕ)
a_history = create ∷ change 0 (λ t. t + 8) ∷ clone_of 0 ∷ free 0 ∷ create ∷ []

apply_all-all_states_example :
    (owners : List ℕ) × (s' : Objects ℕ World) × (apply_all places
        (bytes "Counter" ∷ [])
        2
        10
        some
        (λ t. t)
        a_history
        []
        none_yet
      ≡ returns (owners, s'))
    × (map s'.states owners ≡ some 42 ∷ some 50 ∷ [])
    × ((q : ℕ) → count q owners ≡ 0 → s'.states q ≡ none)
    × (s'.world.1 ≡ 51 ∷ [])
apply_all-all_states_example =
    apply_all-all_states ⦃flags = flags8⦄ places (bytes "Counter" ∷ []) 2 counter (10 ∷ []) 10 10
      places_view some (λ t. t) 42 (λ t. t + 1) places_IsObjectEngine (λ t. refl) a_history none_yet
      refl refl (λ q. refl)
