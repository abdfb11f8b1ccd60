-- ===== src/Validators.antt =====
-- include/rpcspec/Validators.hpp: the requirements, modifiers and checks of the library.
pub mod Chars
pub mod Presence
pub mod Numeric
pub mod Strings
pub mod Libxrpl
pub mod Accounts
pub mod Arrays
pub mod Entries
pub mod Absent
pub mod Samples
mod Tests
