-- ===== src/Classes/Walk.antt =====
-- phper/src/classes.rs: how `create_object` and `clone_object_common` walk over a class's function
-- entries to the two that are hidden behind the terminating one.
use phper.Base.{
  ℕ, zero, suc, Bool, true, false, none, some, List, [], ◌∷◌, Outcome, returns, panics, undefined,
  if◌then◌else◌, is_some,
}
use phper.Classes.{
  StateConstructor, StateCloner, Slot, method, zeroed, constructor_slot, cloner_slot,
}

module _ {H D W : Type 0} where
  -- The loop `while !(*func_ptr).fname.is_null()`.
  unfoldable pub fname_is_null : Slot H D W → Bool
  fname_is_null (method e) = false
  fname_is_null zeroed = true
  fname_is_null (constructor_slot c) = false
  fname_is_null (cloner_slot none) = true
  fname_is_null (cloner_slot (some c)) = false

  unfoldable pub find_null : List (Slot H D W) → Outcome (List (Slot H D W))
  unfolding fname_is_null
  find_null [] = undefined
  find_null (s ∷ rest) =
      let more = find_null rest in if fname_is_null s then returns (s ∷ rest) else more

  -- The entry so many places behind.
  unfoldable pub offset_by : ℕ → List (Slot H D W) → Outcome (Slot H D W)
  offset_by n [] = undefined
  offset_by zero (s ∷ rest) = returns s
  offset_by (suc n) (s ∷ rest) = offset_by n rest

  -- The first bytes of an entry as a pointer to a constructor or cloner, and whether they are not zero.
  unfoldable pub read_constructor : Slot H D W → Outcome (StateConstructor D W)
  read_constructor (constructor_slot c) = returns c
  read_constructor zeroed = panics
  read_constructor (cloner_slot none) = panics
  read_constructor (cloner_slot (some c)) = undefined
  read_constructor (method e) = undefined

  unfoldable pub read_cloner : Slot H D W → Outcome (StateCloner D W)
  read_cloner (cloner_slot (some c)) = returns c
  read_cloner (cloner_slot none) = panics
  read_cloner zeroed = panics
  read_cloner (constructor_slot c) = undefined
  read_cloner (method e) = undefined

  unfoldable pub not_zero : Slot H D W → Bool
  not_zero (method e) = true
  not_zero zeroed = false
  not_zero (constructor_slot c) = true
  not_zero (cloner_slot o) = is_some o
