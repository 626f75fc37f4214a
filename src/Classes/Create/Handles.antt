-- ===== src/Classes/Create/Handles.antt =====
-- phper/src/objects.rs: `StateObj` and `StateObject` as pointers to and from the engine's object.
use phper.Base.{ℕ, ◌+◌, ◌-◌, Outcome, unwrap, returns, ◌>>=◌}
use phper.Values.Union
use phper.Values.Union.{try_from_ptr}
use phper.Classes.Create.{offset, as_mut_object, from_mut_object_ptr}

unfoldable pub from_object_ptr : ℕ → Outcome ℕ
unfolding try_from_ptr
from_object_ptr object = unwrap (try_from_ptr (object - offset))

-- `StateObj::from_mut_ptr`.
unfoldable pub state_from_mut_ptr : ℕ → Outcome ℕ
unfolding Union.from_ptr
state_from_mut_ptr p = Union.from_ptr p

-- `ZObj::as_state_obj` and `ZObj::as_mut_state_obj`.
unfoldable pub as_state_obj : ℕ → Outcome ℕ
unfolding from_object_ptr
as_state_obj object = from_object_ptr object

unfoldable pub as_mut_state_obj : ℕ → Outcome ℕ
unfolding from_mut_object_ptr
as_mut_state_obj object = from_mut_object_ptr object

-- `StateObj::as_object`, and `Deref` of a `StateObj`.
unfoldable pub as_object : ℕ → ℕ
as_object p = p + offset

-- `Deref` and `DerefMut` of a `StateObject`.
unfoldable pub deref : ℕ → Outcome ℕ
unfolding try_from_ptr
deref inner = unwrap (try_from_ptr inner)

unfoldable pub from_raw_object : ℕ → Outcome ℕ
unfolding from_mut_object_ptr
from_raw_object object = from_mut_object_ptr object

unfoldable pub into_raw_object : ℕ → Outcome ℕ
unfolding deref as_mut_object
into_raw_object self = do p ← deref self; returns (as_mut_object p)

-- `ZObject::from_raw` and `ZObject::into_raw`.
unfoldable pub object_from_raw : ℕ → Outcome ℕ
unfolding Union.from_ptr
object_from_raw p = Union.from_ptr p

unfoldable pub object_into_raw : ℕ → Outcome ℕ
unfolding try_from_ptr
object_into_raw inner = unwrap (try_from_ptr inner)

unfoldable pub into_z_object : ℕ → Outcome ℕ
unfolding into_raw_object object_from_raw
into_z_object self = do raw ← into_raw_object self; object_from_raw raw
