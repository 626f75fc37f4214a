-- ===== src/Classes/Create/History/Making.antt =====
-- Each step of an object's life (phper/src/classes.rs) with the store that it leaves.
use phper.Base.{
  ℕ, ◌≡◌, ◌≢◌, refl, ap, ◌∙◌, true, false, Option, some, List, Outcome, returns, ◌==◌,
  if◌then◌else◌, is_some,
}
use phper.Functions.{PhpFlags}
use phper.Classes.{ClassEntity}
use phper.Classes.Create.{
  ObjectApi, Objects, Handlers, offset, as_mut_object, create_object, clone_object, on_world,
  set_handlers, set_state,
}
use phper.Classes.Create.Places.{place_lem, read_lem, run_lem}
use phper.Classes.Create.Hidden.{
  IsInstance, new_object_of, clone_of, create_object-hidden, clone_object-hidden,
}
use phper.Classes.Create.Lifecycle.{prepared}
use phper.Classes.Create.Cloning.{copied}
use phper.Classes.Create.History.Laws.{View, IsQuiet, quiet_then, IsObjectEngine}

module _ {H D W T : Type 0} ⦃flags : PhpFlags⦄ (api : ObjectApi H D W) (class_names : List (List ℕ))
    (fuel : ℕ) (c : ClassEntity H D W) (l : List ℕ) (real ce : ℕ) (view : View D W) (any : T → D)
    (init : T) (copy : T → T)
    (is : IsObjectEngine api class_names fuel c l real ce view any init copy) where
  -- A run that makes an object with the state `t`, from the store `s`.
  pub record Made (s : Objects D W) (t : T) (r : Outcome (ℕ × Objects D W)) : Type 0 where
    pub place : ℕ
    pub after : Objects D W
    pub runs : r ≡ returns (as_mut_object place, after)
    pub stored : (q : ℕ) → after.states q ≡ (if q == place then some (any t) else s.states q)
    pub not_null : place ≢ 0
    pub fresh : view.live place s.world ≡ false
    pub lives : view.live place after.world ≡ true
    pub quiet : IsQuiet view s.world after.world

  prepared_quiet :
      (s : Objects D W)
      → view.good s.world ≡ true
      → IsQuiet view (api.object_alloc ce s.world).1 (prepared api class_names fuel c l real ce s)
  unfolding prepared
  prepared_quiet s h =
      let object = as_mut_object (api.object_alloc ce s.world).0 in
      let alloc = is.alloc_quiet s.world h in
      let inited = is.std_init_quiet object _ alloc.still_good in
      let with_properties = is.properties_init_quiet object _ inited.still_good in
      let rebuilt = is.rebuild_quiet object _ with_properties.still_good in
      quiet_then view (quiet_then view inited with_properties) rebuilt

  pub create_object-Made :
      (s : Objects D W)
      → view.good s.world ≡ true
      → Made s init (create_object api class_names fuel ce s)
  unfolding new_object_of prepared on_world set_handlers set_state
  create_object-Made s h =
      let p = (api.object_alloc ce s.world).0 in
      let instance_of = is.instance_of s h in
      let handlers : ℕ → Option Handlers = λ q.
        if q == as_mut_object p
        then some (record { offset = offset; has_clone_obj = is_some c.state_cloner })
        else s.handlers q in
      let before : Objects D W = record {
        states = s.states;
        handlers = handlers;
        world = prepared api class_names fuel c l real ce s;
      } in
      let ready = prepared_quiet s h in
      let (w, built, rest) = is.constructed before.world ready.still_good in
      record {
        place = p;
        after = record {
          states = λ q. if q == p then some (any init) else s.states q;
          handlers = handlers;
          world = w;
        };
        runs =
            rw (create_object-hidden api class_names fuel c l real ce s instance_of)
              (rw (run_lem c.state_constructor before (any init) w built) refl);
        stored = λ q. refl;
        not_null = instance_of.not_null;
        fresh = is.alloc_fresh s.world h;
        lives = rest.still_live p (ready.still_live p (is.alloc_live s.world h));
        quiet = quiet_then view (quiet_then view (is.alloc_quiet s.world h) ready) rest;
      }

  copied_quiet :
      (object : ℕ) (s : Objects D W)
      → view.good s.world ≡ true
      → IsQuiet view
          (api.object_alloc ce s.world).1
          (copied api class_names fuel c l real ce object s)
  unfolding copied
  copied_quiet old s h =
      let object = as_mut_object (api.object_alloc ce s.world).0 in
      let alloc = is.alloc_quiet s.world h in
      let inited = is.std_init_quiet object _ alloc.still_good in
      let with_properties = is.properties_init_quiet object _ inited.still_good in
      let with_members = is.clone_members_quiet object old _ with_properties.still_good in
      quiet_then view (quiet_then view inited with_properties) with_members

  cloning_lem :
      (object : ℕ) (s : Objects D W)
      → view.good s.world ≡ true
      → api.class_of object s.world ≡ ce
      → clone_object api class_names fuel object s
        ≡ clone_of api is.cloner ce object
            (api.object_alloc ce s.world).0
            (record s { world = (api.object_alloc ce s.world).1 })
  cloning_lem object s h class_eq =
      let instance_of : IsInstance api class_names fuel c l real (api.class_of object s.world) s =
        rw class_eq (is.instance_of s h) in
      clone_object-hidden api class_names fuel c l real object is.cloner s instance_of is.has_cloner
      ∙ ap
          (λ k.
            clone_of api is.cloner k object (api.object_alloc k s.world).0
              (record s { world = (api.object_alloc k s.world).1 }))
          class_eq

  pub not_null_lem : (p : ℕ) (w : W) → view.good w ≡ true → view.live p w ≡ true → p ≢ 0
  not_null_lem p w h live e = let dead = is.never_null w h in absurd (cc)

  pub clone_object-Made :
      (p : ℕ) (t : T) (s : Objects D W)
      → view.good s.world ≡ true
      → view.live p s.world ≡ true
      → s.states p ≡ some (any t)
      → Made s (copy t) (clone_object api class_names fuel (as_mut_object p) s)
  unfolding clone_of copied on_world set_handlers set_state
  clone_object-Made q t s h live stored =
      let object = as_mut_object q in
      let p = (api.object_alloc ce s.world).0 in
      let handlers : ℕ → Option Handlers =
        λ o. if o == as_mut_object p then s.handlers object else s.handlers o in
      let before : Objects D W = record {
        states = s.states;
        handlers = handlers;
        world = copied api class_names fuel c l real ce object s;
      } in
      let ready = copied_quiet object s h in
      let (w, made, rest) = is.cloned t before.world ready.still_good in
      let nonnull : q ≢ 0 = not_null_lem q s.world h live in
      record {
        place = p;
        after = record {
          states = λ o. if o == p then some (any (copy t)) else s.states o;
          handlers = handlers;
          world = w;
        };
        runs = rw (cloning_lem object s h (is.class_kept q s.world h live)) (
            rw (place_lem q nonnull) (
              rw (read_lem q before (any t) stored)
                (rw (run_lem (is.cloner (any t)) before (any (copy t)) w made) refl)));
        stored = λ o. refl;
        not_null = (is.instance_of s h).not_null;
        fresh = is.alloc_fresh s.world h;
        lives = rest.still_live p (ready.still_live p (is.alloc_live s.world h));
        quiet = quiet_then view (quiet_then view (is.alloc_quiet s.world h) ready) rest;
      }
