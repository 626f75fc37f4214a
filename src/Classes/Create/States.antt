-- ===== src/Classes/Create/States.antt =====
-- phper/src/objects.rs: `StateObj` and `StateObject` in the hands of a handler. The state of a
-- `StateObj` at `p` stands there, and its object behind it.
use phper.Base.{ℕ, ◌==◌, if◌then◌else◌, Option, some, unwrap}
use phper.Base.Steps.{Steps, ◌>>=◌, done, try}
use phper.Classes.Create.{Objects, read_state}
use phper.Classes.Create.Handles.{into_raw_object, object_from_raw, object_into_raw}

-- A place in the store: what stands there, and the store after a write.
pub record StatePlace (T S : Type 0) : Type 0 where
  pub content : T
  pub write : T → S → S

module _ {D W : Type 0} where
  -- `Drop for StateObject`: the object is released as a `ZObject`.
  unfoldable pub drop_state_object :
      (release : ℕ → Steps (Objects D W) (Unit {0})) → ℕ → Steps (Objects D W) (Unit {0})
  unfolding into_raw_object object_from_raw object_into_raw
  drop_state_object release self = do
    raw ← try (into_raw_object self)
    z ← try (object_from_raw raw)
    z ← try (object_into_raw z)
    release z

  -- The state, as a value of the type asked for; a panic if it has another type.
  module _ {T : Type 0} (downcast : D → Option T) (any : T → D) where
    unfoldable pub as_state : ℕ → Steps (Objects D W) T
    unfolding read_state
    as_state p = do d ← read_state p; try (unwrap (downcast d))

    unfoldable pub as_mut_state : ℕ → Steps (Objects D W) (StatePlace T (Objects D W))
    unfolding read_state
    as_mut_state p = do
      d ← read_state p
      t ← try (unwrap (downcast d))
      done (record {
        content = t;
        write = λ y s. record s { states = λ q. if q == p then some (any y) else s.states q };
      })
