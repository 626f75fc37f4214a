-- ===== src/Lib.antt =====
-- phper, a Rust library for PHP extensions: the crates phper, phper-alloc, phper-build, phper-macros
-- and phper-test.
--
-- An extension builds a `Module` (phper/src/modules.rs) of functions, classes, interfaces, constants and
-- configuration entries. `module_entry` hands it to PHP, which calls `module_startup`; that registers
-- everything. Afterwards PHP calls `invoke` (phper/src/functions.rs) for every registered function, and
-- `create_object`, `clone_object` and `free_object` (phper/src/classes.rs) for the objects of registered
-- classes. Handlers work on `ZVal`s, `ZStr`s and `ZArr`s and call back into PHP through
-- `call_raw_common`, which turns PHP exceptions into errors; `throw` turns errors into PHP exceptions.
--
-- Files:
--   Base      shared tests, lists and runs; phper/src/utils.rs (`ensure_end_with_zero`)
--   Types     phper/src/types.rs: `TypeInfo`, `Scalar`
--   Errors    phper/src/errors.rs: the error types
--   Strings   phper/src/strings.rs: the reads of a `ZStr`
--   Values    phper/src/values.rs: `ZVal`; Expect, Casts, From and Debug as the source's method groups
--   Engine    the PHP engine as a parameter; Engine/Run is the state that calls of it pass on
--   Calls     phper/src/functions.rs and errors.rs: calls into PHP under an `ExceptionGuard`
--   Objects   phper/src/objects.rs and classes.rs: creating objects, properties, method calls
--   Throwing  phper/src/errors.rs: `Throwable for Error`, `ThrowObject`, `throw`
--   Functions phper/src/functions.rs: entities and entries; Functions/Invoke is `invoke`
--   Arrays    phper/src/arrays.rs: `ZArr`; Arrays/Entry is `Entry`, Arrays/Iter the iterators;
--             Arrays/Table has the engine's hash table, a parameter, with PHP's documented laws
--   Classes   phper/src/classes.rs: builders and function entries, which Classes/Walk reads;
--             Classes/Startup is `init`, Classes/Startup/Registered a class from `init` to its objects;
--             Classes/Create is `create_object` and the rest of an object's life,
--             Classes/Create/History any sequence of uses of the objects of one class, and Classes/Lookup
--             the search for classes and methods, and static properties
--   Alloc     phper-alloc/src/lib.rs: `EBox`, over a heap with the list of dropped values
--   Owned     phper/src/strings.rs (`ZString`), arrays.rs (`ZArray`) and values.rs (`Clone`, `RefClone`,
--             `Drop`): who owns the engine's counted strings and arrays. Owned/Requests has the sequences of
--             uses of `ZString`s
--   Output    phper/src/output.rs and phper/src/macros.rs
--   References phper/src/references.rs and phper/src/resources.rs
--   Ini       phper/src/ini.rs
--   Constants phper/src/constants.rs
--   Modules   phper/src/modules.rs; Modules/Startup has the functions that PHP calls, Modules/Dispatch and
--             Modules/Methods the way from an entity to a call of its handler
--   Build     phper-build/src/lib.rs; Build/Macros is phper-macros/src/inner.rs
--   Testing   phper-test/src: context.rs, cli.rs, fpm.rs, and `get_lib_path` of utils.rs
--   Samples   concrete instances of the parameters, for the Examples beside each part
--
-- How the code is rendered. A definition has the name of the function it models; a constructor of a type
-- with the name `new` is `new_` and the type's. `Result` is `Result`, `Option` is `Option`, and an
-- `Outcome` is a value, a panic, or undefined behaviour: a read of a union or of a hidden pointer at
-- what was not written there. Code that changes the engine's or the extension's state is a function of
-- that state (`Run`, `Steps`). Pointers are natural numbers with 0 for null, bytes and the words of
-- types are natural numbers with the wrap-around written out, and an `f64` is its bit pattern. Whether the
-- addition in `invoke` panics or wraps around at the end of `u32` is a parameter, `BuildProfile`. A
-- handler, a hook and a state's constructor or cloner is a function that may panic.
-- The unusual layouts are kept: a `zend_function_entry`'s argument infos end in an info that holds the
-- handler's pointer, and a class's function entries end, behind the terminating zeroed entry, in two
-- that hold the pointers to the state's constructor and cloner.
--
-- Fuel. The loop of `ThrowObject::from_result` counts to 50 and runs on 52 rounds of fuel, one more
-- than the counter admits. `find_real_ce` follows parent classes on fuel, of which one more than the
-- number of ancestors is enough. `collect` calls an iterator for a number of rounds that must exceed
-- the number of entries.
--
-- Branches. The code for PHP 8 is modelled where versions differ (`ZFunc::call`, `clone_object`,
-- `set_property`), that for PHP 7.3 and later in phper/src/ini.rs, and not PHP 7.0 for `ArgumentCountError`.
--
-- Not modelled: phper-sys (generated bindings and C wrappers of macros) and the engine itself, whose
-- behaviour is a parameter; fatal errors, which leave Rust frames by `longjmp`; the drop of owned
-- arguments and of what a return slot held before; the counts of what an array holds; the macros `c_str` and
-- `c_str_ptr`; phper-doc, and the processes and files that phper-test uses, which are parameters.
pub mod Base
pub mod Types
pub mod Errors
pub mod Strings
pub mod Values
pub mod Engine
pub mod Build
pub mod Calls
pub mod Objects
pub mod Throwing
pub mod Functions
pub mod Arrays
pub mod Classes
pub mod Alloc
pub mod Owned
pub mod Output
pub mod Testing
pub mod References
pub mod Ini
pub mod Constants
pub mod Modules
pub mod Samples
