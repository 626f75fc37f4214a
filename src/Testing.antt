-- ===== src/Testing.antt =====
-- phper-test: how the tests of an extension run PHP. Testing/Context is src/context.rs and src/utils.rs,
-- Testing/Fpm, Testing/Request and Testing/Lifecycle are about src/fpm.rs, Testing/Scripts is src/cli.rs.
pub mod Context
pub mod Lists
pub mod Fpm
pub mod Request
pub mod Scripts
pub mod Lifecycle
mod Examples
