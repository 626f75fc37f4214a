-- ===== src/Owned/Requests.antt =====
-- What an extension does with the `ZString`s that it owns (phper/src/strings.rs): a request makes one,
-- uses one, or drops one. The owners are the values in the extension's hands, the latest first.
use phper.Base.{ℕ, Option, none, some, List, [], ◌∷◌, get_elem?}
use phper.Base.Steps.{Steps, ◌>>=◌, ◌>>◌, done, try}
use phper.Base.Places.{without}
use phper.Owned.{StringMemory}
use phper.Owned.Strings.{new, clone, to_owned, to_ref_owned, from_raw, into_raw, drop_string}

-- `clone` and the like name an owner by its place; `adopt` is `to_ref_owned` of a string of the engine.
pub data Request : Type 0 where
  create : List ℕ → Request
  adopt : ℕ → Request
  clone_of : ℕ → Request
  owned_copy_of : ℕ → Request
  share : ℕ → Request
  through_raw : ℕ → Request
  discard : ℕ → Request

module _ {M : Type 0} (mem : StringMemory M) where
  -- The new owner comes first.
  abbrev pub gains : Steps M ℕ → List ℕ → Steps M (List ℕ)
  gains made owners = do p ← made; done (p ∷ owners)

  -- A request that names no owner does nothing.
  abbrev pub at_owner : Option ℕ → List ℕ → (ℕ → Steps M (List ℕ)) → Steps M (List ℕ)
  at_owner none owners f = done owners
  at_owner (some p) owners f = f p

  unfoldable pub apply : Request → List ℕ → Steps M (List ℕ)
  unfolding new to_ref_owned clone to_owned into_raw from_raw drop_string
  apply (create s) owners = gains (new mem s) owners
  apply (adopt p) owners = gains (to_ref_owned mem p) owners
  apply (clone_of i) owners = at_owner (get_elem? owners i) owners (λ p. gains (clone mem p) owners)
  apply (owned_copy_of i) owners =
      at_owner (get_elem? owners i) owners (λ p. gains (to_owned mem p) owners)
  apply (share i) owners =
      at_owner (get_elem? owners i) owners (λ p. gains (to_ref_owned mem p) owners)
  apply (through_raw i) owners =
      at_owner (get_elem? owners i) owners
        (λ p. do raw ← try (into_raw p); p ← try (from_raw raw); done (p ∷ without i owners))
  apply (discard i) owners =
      at_owner (get_elem? owners i) owners (λ p. drop_string mem p >> done (without i owners))

  unfoldable pub apply_all : List Request → List ℕ → Steps M (List ℕ)
  unfolding apply
  apply_all [] owners = done owners
  apply_all (r ∷ rest) owners = do owners ← apply r owners; apply_all rest owners

  -- At the end of their scope all owners are dropped.
  unfoldable pub drop_all : List ℕ → Steps M (Unit {0})
  unfolding drop_string
  drop_all [] = done tt
  drop_all (p ∷ rest) = do drop_string mem p; drop_all rest
