-- ===== src/Classes/Create/History.antt =====
-- What an extension and PHP do with the objects of one class that holds states (phper/src/classes.rs,
-- phper/src/objects.rs): a request makes one, clones one, lets a handler change the state of one, or frees
-- one. The objects are known by the places of their states, the latest used first.
pub mod Laws
pub mod Making
pub mod Tracking
pub mod Refinement
mod Examples
use phper.Base.{ℕ, Option, none, some, List, [], ◌∷◌, get_elem?}
use phper.Base.Places.{without}
use phper.Base.Steps.{Steps, ◌>>=◌, ◌>>◌, modify, done, try}
use phper.Classes.Create.{
  ObjectApi, Objects, as_mut_object, create_object, clone_object, free_object,
}
use phper.Classes.Create.Handles.{as_mut_state_obj}
use phper.Classes.Create.States.{as_mut_state}

-- A request names an object by its place in the list.
pub data Request (T : Type 0) : Type 0 where
  create : Request T
  clone_of : ℕ → Request T
  change : ℕ → (T → T) → Request T
  free : ℕ → Request T

module _ {H D W T : Type 0} (api : ObjectApi H D W) (class_names : List (List ℕ)) (fuel ce : ℕ)
    (downcast : D → Option T) (any : T → D) where
  -- The new object comes first; a handler finds its state from the object.
  abbrev pub gains : Steps (Objects D W) ℕ → List ℕ → Steps (Objects D W) (List ℕ)
  gains made owners = do object ← made; p ← try (as_mut_state_obj object); done (p ∷ owners)

  -- A request that names no object does nothing.
  abbrev pub at_owner :
      Option ℕ → List ℕ → (ℕ → Steps (Objects D W) (List ℕ)) → Steps (Objects D W) (List ℕ)
  at_owner none owners f = done owners
  at_owner (some p) owners f = f p

  unfoldable pub apply : Request T → List ℕ → Steps (Objects D W) (List ℕ)
  unfolding as_mut_state_obj
  apply create owners = gains (create_object api class_names fuel ce) owners
  apply (clone_of i) owners =
      at_owner (get_elem? owners i) owners
        (λ p. gains (clone_object api class_names fuel (as_mut_object p)) owners)
  apply (change i f) owners = at_owner (get_elem? owners i) owners (λ p. do
    place ← as_mut_state downcast any p
    modify (place.write (f place.content))
    done (p ∷ without i owners))
  apply (free i) owners =
      at_owner (get_elem? owners i) owners
        (λ p. free_object api (as_mut_object p) >> done (without i owners))

  unfoldable pub apply_all : List (Request T) → List ℕ → Steps (Objects D W) (List ℕ)
  unfolding apply
  apply_all [] owners = done owners
  apply_all (r ∷ rest) owners = do owners ← apply r owners; apply_all rest owners
