-- ===== src/Classes/Examples.antt =====
-- A class with a state of one number and an interface taken from a static (phper/src/classes.rs).
use phper.Base.{
  sym, ℕ, ◌+◌, ◌≡◌, refl, ap, true, none, some, [], ◌∷◌, returns, panics, arith, bytes, ◌==◌,
  if◌then◌else◌,
}
use phper.Classes.{ClassEntity, class_function_entries}
use phper.Classes.Startup.{ClassApi, as_class_entry, class_init}
use phper.Classes.Startup.Binding.{
  IsClassRegistered, at, bound, class_init-statics, class_init-unbound,
}
use phper.Classes.Create.{
  ObjectApi, Objects, as_mut_object, create_object, clone_object, free_object, find_real_ce,
  into_state,
}
use phper.Classes.Create.Hidden.{IsInstance, find_real_ce-nearest}
use phper.Classes.Create.Cloning.{copied, clone_object-states}
use phper.Classes.Create.Handles.{as_state_obj}
use phper.Classes.Create.States.{StatePlace, as_state, as_mut_state}
use phper.Classes.Create.Views.{as_state-as_mut_state}
use phper.Classes.Startup.Registered.{KeepsClass, class_init-create_object}
use phper.Base.Steps.{Steps}
use phper.Base.{◌-◌, ◌<◌, ◌⊎◌}
use phper.Classes.Create.Lifecycle.{IsRelease, into_state-free_object}
use phper.Base.{
  List, map, leb, ◌&&◌, bytes_eq, eq_of_bytes_eq, Bool-cases, inl, inr, length, false, pos,
}
use phper.Values.Union.{ZVal, unset, long}
use phper.Arrays.Table.{text}
use phper.Classes.Lookup.{has_method, get_static_property, set_static_property}
use phper.Classes.Lookup.Methods.{KeysAreLower, has_method-lower}
use phper.Classes.Lookup.Statics.{get-set_static_property}
use phper.Samples.Hash.{Table, hash8, hash8-IsZendHash}
use phper.Samples.{flags8}

abbrev foo : ClassEntity ℕ ℕ ℕ
foo = record {
  class_name = bytes "Foo";
  state_constructor = λ w. returns (42, w);
  method_entities = [];
  property_entities = [];
  parent = none;
  interfaces = [];
  bind_class = some 0;
  state_cloner = some (λ d w. returns (d + 1, w));
}

-- The engine keeps a number; a dropped state is added to it. Class 11 extends class 10, which is `Foo`.
abbrev objects8 : ObjectApi ℕ ℕ ℕ
objects8 = record {
  class_name = λ ce w. if ce == 10 then bytes "Foo" else bytes "Child";
  parent_class = λ ce w. if ce == 11 then 10 else 0;
  builtin_functions = λ ce w. class_function_entries ⦃flags = flags8⦄ foo;
  class_of = λ o w. 11;
  object_alloc = λ ce w. (100, w);
  object_std_init = λ o ce w. w;
  object_properties_init = λ o ce w. w;
  rebuild_object_properties = λ o w. w;
  clone_members = λ n o w. w;
  object_std_dtor = λ o w. w;
  drop_any = λ d w. w + d;
}

abbrev classes8 : ClassApi ℕ ℕ ℕ
classes8 = record {
  register_internal_class = λ name slots w. (10, w);
  register_internal_class_ex = λ name slots parent w. (11, w);
  register_internal_interface = λ name slots w. (12, w);
  class_implements = λ ce i w. w;
  set_create_object = λ ce w. w;
}

abbrev unbound : ℕ → ℕ
unbound s = 0

abbrev no_objects : Objects ℕ ℕ
no_objects = record { states = λ p. none; handlers = λ o. none; world = 0 }

abbrev one_object : Objects ℕ ℕ
one_object = record {
  states = λ p. if p == 200 then some 42 else none;
  handlers = λ o. none;
  world = 0;
}

find_real_ce-nearest_example : find_real_ce objects8 (bytes "Foo" ∷ []) 3 11 0 ≡ returns (some 10)
find_real_ce-nearest_example =
    find_real_ce-nearest objects8 (bytes "Foo" ∷ []) 0 3 11 (11 ∷ 10 ∷ [])
      (refl, omega arith, omega arith, (refl, omega arith, omega arith, refl)) (omega arith)

abbrev child_IsInstance :
    (s : Objects ℕ ℕ)
    → IsInstance ⦃flags = flags8⦄ objects8 (bytes "Foo" ∷ []) 3 foo (11 ∷ 10 ∷ []) 10 11 s
child_IsInstance s = record {
  ancestry = (refl, omega arith, omega arith, (refl, omega arith, omega arith, refl));
  enough = omega arith;
  is_nearest = refl;
  not_null = omega arith;
  entries = refl;
}

classes8-KeepsClass : KeepsClass classes8 objects8 ⦃flags = flags8⦄ foo
classes8-KeepsClass = record {
  registered_not_null = λ w. omega arith;
  registered =
      λ w q w' e. let at_ten : q ≡ 10 = sym (ap (λ r. r.0) e) in rw at_ten (refl, refl, refl);
  implements_keeps = λ ce i w q. (refl, refl, refl);
  create_object_keeps = λ ce w q. (refl, refl, refl);
  alloc_keeps = λ ce w q. (refl, refl, refl);
  alloc_not_null = λ ce w. omega arith;
}

class_init-create_object_example :
    (ce : ℕ) × (w' : ℕ) × (w₀ : ℕ) × (w₁ : ℕ) × (p : ℕ) × (d : ℕ) × (s₁ : Objects ℕ ℕ)
    × (s₂ : Objects ℕ ℕ) × (class_init classes8 ⦃flags = flags8⦄ foo (at unbound 0)
        ≡ returns (ce, at (bound (some 0) ce unbound) w'))
    × (create_object objects8
          (bytes "Foo" ∷ [])
          2
          ce
          (record { states = λ q. none; handlers = λ q. none; world = w' })
        ≡ returns (as_mut_object p, s₁))
    × (foo.state_constructor w₀ ≡ returns (d, w₁))
    × (s₁.states p ≡ some d)
    × (s₁.handlers (as_mut_object p) ≡ some (record { offset = 16; has_clone_obj = true }))
    × (free_object objects8 (as_mut_object p) s₁ ≡ returns (tt, s₂))
    × (s₂.states p ≡ none)
    × (s₂.world ≡ w₁ + d)
class_init-create_object_example =
    class_init-create_object classes8 objects8 ⦃flags = flags8⦄ foo classes8-KeepsClass unbound 0
      (bytes "Foo" ∷ []) 2 (λ q. none) (λ q. none) refl (λ ce. tt) (omega arith) (omega arith) refl
      (λ w. (42, w, refl))

-- The world is the number of references to the one object that there is; a destructor takes the last.
abbrev counted_objects : ObjectApi ℕ ℕ ℕ
counted_objects = record objects8 { drop_any = λ d w. w }

abbrev release8 : ℕ → Steps (Objects ℕ ℕ) (Unit {0})
release8 object s =
    if s.world == 1
    then free_object counted_objects object (record s { world = s.world - 1 })
    else returns (tt, record s { world = s.world - 1 })

abbrev one : ℕ
one = 1

release8_last :
    (object : ℕ) (s : Objects ℕ ℕ)
    → s.world ≡ 1
    → release8 object s ≡ free_object counted_objects object (record s { world = s.world - 1 })
release8_last object s h = let only : (s.world == 1) ≡ true = ground arith in rw only refl

release8_shared :
    (object : ℕ) (s : Objects ℕ ℕ)
    → 1 < s.world
    → release8 object s ≡ returns (tt, record s { world = s.world - 1 })
release8_shared object s h = let more : (s.world == 1) ≡ false = ground arith in rw more refl

abbrev release8_IsRelease : IsRelease counted_objects (λ o w. w) release8
release8_IsRelease = record {
  destructed = λ o w. w - 1;
  less_one = λ o w. w - 1;
  last = λ o s h. release8_last o s h;
  shared = λ o s h. release8_shared o s h;
  counted = λ o w h. omega arith;
}

into_state-free_object_example :
    ((one ≡ 1)
      × ((s : Objects ℕ ℕ) × (into_state counted_objects
              (λ d. some d)
              0
              (λ o w. w)
              release8
              216
              (record one_object { world = one })
            ≡ returns (some 42, s))
          × (s.states 200 ≡ none)
          × (s.world ≡ 0)))
    ⊎ ((1 < one)
        × ((s : Objects ℕ ℕ) × (into_state counted_objects
                (λ d. some d)
                0
                (λ o w. w)
                release8
                216
                (record one_object { world = one })
              ≡ returns (none, s))
            × (s.states ≡ one_object.states)
            × (s.world + 1 ≡ 1)))
unfolding as_mut_object
into_state-free_object_example =
    into_state-free_object counted_objects (λ d. some d) 0 (λ o w. w) release8 release8_IsRelease
      200 (record one_object { world = one }) 42 42 (omega arith) refl refl (omega arith)

class_init-statics_example :
    (ce : ℕ) × (w : ℕ) × (class_init classes8 ⦃flags = flags8⦄ foo (at unbound 0)
      ≡ returns (ce, at (bound (some 0) ce unbound) w))
    × IsClassRegistered classes8 ⦃flags = flags8⦄ foo unbound 0 ce w
class_init-statics_example =
    class_init-statics classes8 ⦃flags = flags8⦄ foo unbound 0 tt (λ ce. tt)

class_init-unbound_example :
    class_init classes8 ⦃flags = flags8⦄
      (record foo { interfaces = as_class_entry 1 ∷ [] })
      (at unbound 0)
    ≡ panics
class_init-unbound_example =
    class_init-unbound classes8 ⦃flags = flags8⦄ (record foo { interfaces = as_class_entry 1 ∷ [] })
      unbound 0 1 [] tt refl refl
      (λ e. absurd (omega (arith, ap {B = ℕ} (λ o. elim o [ none ↦ 0 | some n ↦ n ]) e)))

clone_object-states_example :
    (p : ℕ) × (s : Objects ℕ ℕ) × (p ≡ 100)
    × (clone_object objects8 (bytes "Foo" ∷ []) 3 216 one_object ≡ returns (as_mut_object p, s))
    × (s.states p ≡ some 43)
    × (s.states 200 ≡ some 42)
    × (s.handlers (as_mut_object p) ≡ none)
    × (s.world ≡ 0)
unfolding copied as_mut_object
clone_object-states_example =
    clone_object-states ⦃flags = flags8⦄ objects8 (bytes "Foo" ∷ []) 3 foo (11 ∷ 10 ∷ []) 10 200
      (λ d w. returns (d + 1, w)) one_object 42 43 0 (child_IsInstance one_object) refl
      (omega arith) (omega arith) refl refl

abbrev null_val : ZVal
null_val = record { type_info = 1; value = unset }

abbrev five : ZVal
five = record { type_info = 4; value = long (pos 5) }

-- `get`, under which PHP would keep `get` and `GET` alike.
abbrev methods8 : Table
methods8 = ((text (bytes "get"), record { type_info = 1; value = unset }) ∷ [], (refl, tt))

abbrev lower_byte : ℕ → ℕ
lower_byte c = if leb 65 c && leb c 90 then c + 32 else c

abbrev lower8 : List ℕ → List ℕ
lower8 s = map lower_byte s

methods8-KeysAreLower : KeysAreLower hash8 hash8-IsZendHash lower8 methods8
methods8-KeysAreLower s found = elim (Bool-cases (bytes_eq (bytes "get") s)) [
  | inl same ↦ rw (← eq_of_bytes_eq (bytes "get") s same) refl
  | inr apart ↦ absurd (ground (arith, found, apart))
]

has_method-lower_example : has_method hash8 methods8 (bytes "GET") ≡ returns false
has_method-lower_example =
    has_method-lower hash8 hash8-IsZendHash lower8 methods8 (bytes "GET") methods8-KeysAreLower refl
      (λ e. absurd (ground (arith, e)))

get-set_static_property_example :
    ((set_static_property length (bytes "one") five (λ p. null_val)).0
      ≡ get_static_property length (bytes "one") (λ p. null_val))
    × (get_static_property length
          (bytes "one")
          (set_static_property length (bytes "one") five (λ p. null_val)).1
        ≡ some five)
    × (get_static_property length
          (bytes "more")
          (set_static_property length (bytes "one") five (λ p. null_val)).1
        ≡ get_static_property length (bytes "more") (λ p. null_val))
get-set_static_property_example =
    get-set_static_property length (bytes "one") (bytes "more") five (λ p. null_val) (omega arith)

as_state-as_mut_state_example :
    (place : StatePlace ℕ (Objects ℕ ℕ)) × (freed : Objects ℕ ℕ) × (as_state_obj 216 ≡ returns 200)
    × (as_state (λ d. some d) (λ t. t) 200 one_object ≡ returns (42, one_object))
    × (as_mut_state (λ d. some d) (λ t. t) 200 one_object ≡ returns (place, one_object))
    × (place.content ≡ 42)
    × (as_state (λ d. some d) (λ t. t) 200 (place.write 7 one_object)
        ≡ returns (7, place.write 7 one_object))
    × ((place.write 7 one_object).states 100 ≡ none)
    × (free_object objects8 216 (place.write 7 one_object) ≡ returns (tt, freed))
    × (freed.world ≡ 7)
unfolding as_mut_object
as_state-as_mut_state_example =
    as_state-as_mut_state objects8 (λ d. some d) (λ t. t) 200 100 one_object 42 42 7 (omega arith)
      (omega arith) refl refl refl
