-- ===== src/Errors.antt =====
-- phper/src/errors.rs: the error types. An I/O error and a boxed error are known by their `Display`
-- text, and the errors of the conversions of bytes by the bytes that were refused.
use phper.Base.{ℕ, List}
use phper.Types.{TypeInfo}

-- `io::Error` and `Box<dyn error::Error>`.
pub record DynError : Type 0 where
  pub text : List ℕ

pub record Utf8Error : Type 0 where
  pub input : List ℕ

pub record FromBytesWithNulError : Type 0 where
  pub input : List ℕ

-- Expect type is not the actual type.
pub record ExpectTypeError : Type 0 where
  pub expect_type : TypeInfo
  pub actual_type : TypeInfo

pub record ClassNotFoundError : Type 0 where
  pub class_name : List ℕ

pub record ArgumentCountError : Type 0 where
  pub function_name : List ℕ
  pub expect_count : ℕ
  pub given_count : ℕ

pub record InitializeObjectError : Type 0 where
  pub class_name : List ℕ

pub data NotImplementThrowableError : Type 0 where
  not_implement_throwable_error : NotImplementThrowableError

-- The object is owned: the value holds a reference on it.
pub record ThrowObject : Type 0 where
  pub object : ℕ

pub data Error : Type 0 where
  io : DynError → Error
  utf8 : Utf8Error → Error
  from_bytes_with_nul : FromBytesWithNulError → Error
  boxed : DynError → Error
  throw : ThrowObject → Error
  class_not_found : ClassNotFoundError → Error
  argument_count : ArgumentCountError → Error
  initialize_object : InitializeObjectError → Error
  expect_type : ExpectTypeError → Error
  not_implement_throwable : NotImplementThrowableError → Error
