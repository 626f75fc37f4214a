-- ===== src/Values.antt =====
-- phper/src/values.rs: `ZVal`, a type word and a union.
pub mod Union
pub mod Casts
pub mod Expect
pub mod From
pub mod Debug
pub mod Boxes
pub mod WellTyped
pub mod RoundTrip
pub mod Printing
mod Examples
