-- ===== src/Acl.antt =====
-- acl/acl_update.c, a program that modifies and removes entries of the access control lists of files.
pub mod Parse
pub mod Calls
pub mod Update
pub mod Main
pub mod Specs
pub mod Written
pub mod Bounds
pub mod Defined
pub mod Safe
mod Tests
