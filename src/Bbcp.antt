-- ===== src/Bbcp.antt =====
-- APUE/homework/hw1/bbcp.c, which copies a file.
pub mod Main
pub mod Laws
pub mod Copied
pub mod Endless
pub mod Tests
