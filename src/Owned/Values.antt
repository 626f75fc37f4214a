-- ===== src/Owned/Values.antt =====
-- phper/src/values.rs: `Clone`, `RefClone`, `Drop` and `into_inner` of `ZVal`, over the engine's counted
-- strings and arrays.
use phper.Base.{ℕ, ◌≡◌, true, false, some, ltb, returns, if◌then◌else◌}
use phper.Base.Steps.{Steps, ◌>>=◌, ◌>>◌, modify, done}
use phper.Types
use phper.Types.{PhpTypes}
use phper.Values.Union.{ZVal, get_type_info}
use phper.Values.From.{ZvalMacros, default, from_z_string, from_z_array}
use phper.Owned.{StringMemory, ZendString}
use phper.Owned.Arrays.{ArrayMemory, ZendArray}

-- `ZVAL_COPY` onto a value (target, source), `SEPARATE_STRING`, `SEPARATE_ARRAY`, `zval_ptr_dtor`.
pub record ValueMemory (M T : Type 0) : Type 0 where
  pub strings : StringMemory M
  pub arrays : ArrayMemory M T
  pub zval_copy : ZVal → ZVal → M → ZVal × M
  pub separate_string : ZVal → M → ZVal × M
  pub separate_array : ZVal → M → ZVal × M
  pub zval_ptr_dtor : ZVal → M → M

-- PHP's documented behaviour, of values with a counted string or array: a copy is one reference more, to
-- separate a value that is shared is to copy its content and to give the reference back, and the
-- destructor gives a reference back.
pub record IsValueMemory {M T : Type 0} ⦃macros : ZvalMacros⦄ (mem : ValueMemory M T) : Type 0 where
  pub copy_string :
      (val : ZVal) (p : ℕ) (m : M) (z : ZendString)
      → mem.strings.find m p ≡ some z
      → z.interned ≡ false
      → mem.zval_copy val (from_z_string p) m ≡ (from_z_string p, (mem.strings.copy p m).1)
  pub copy_array :
      (val : ZVal) (p : ℕ) (m : M) (a : ZendArray T)
      → mem.arrays.find m p ≡ some a
      → mem.zval_copy val (from_z_array p) m ≡ (from_z_array p, mem.arrays.addref p m)
  pub separate_shared_string :
      (p : ℕ) (m : M) (z : ZendString)
      → mem.strings.find m p ≡ some z
      → z.interned ≡ false
      → ltb 1 z.refs ≡ true
      → mem.separate_string (from_z_string p) m ≡ (
        from_z_string (mem.strings.init z.bytes (mem.strings.release p m)).0,
        (mem.strings.init z.bytes (mem.strings.release p m)).1,
      )
  pub separate_shared_array :
      (p : ℕ) (m : M) (a : ZendArray T)
      → mem.arrays.find m p ≡ some a
      → ltb 1 a.refs ≡ true
      → mem.separate_array (from_z_array p) m
        ≡ (from_z_array (mem.arrays.dup p m).0, mem.arrays.delref p (mem.arrays.dup p m).1)
  pub dtor_string :
      (p : ℕ) (m : M) (z : ZendString)
      → mem.strings.find m p ≡ some z
      → z.interned ≡ false
      → mem.zval_ptr_dtor (from_z_string p) m ≡ mem.strings.release p m

module _ {M T : Type 0} (mem : ValueMemory M T) ⦃php : PhpTypes⦄ where
  copied : ZVal → Steps M ZVal
  unfolding default
  copied v m = returns (mem.zval_copy default v m)

  separated_string : ZVal → Steps M ZVal
  separated_string val m = returns (mem.separate_string val m)

  separated_array : ZVal → Steps M ZVal
  separated_array val m = returns (mem.separate_array val m)

  unfoldable pub clone : ZVal → Steps M ZVal
  unfolding copied separated_string separated_array get_type_info
  clone self = do
    val ← copied self
    if Types.is_string (get_type_info val)
        then separated_string val
        else if Types.is_array (get_type_info val)
        then separated_array val
        else done val

  unfoldable pub ref_clone : ZVal → Steps M ZVal
  unfolding copied
  ref_clone self = copied self

  -- `Drop for ZVal`.
  unfoldable pub drop_val : ZVal → Steps M (Unit {0})
  drop_val self = modify (mem.zval_ptr_dtor self)

  -- `self.inner` is copied out, and `self` is dropped at the end of the function.
  unfoldable pub into_inner : ZVal → Steps M ZVal
  unfolding drop_val
  into_inner self = drop_val self >> done self
