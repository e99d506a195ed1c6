-- ===== src/Randtree.antt =====
-- The-Linux-Programming-Interface/tlpi-dist/inotify/rand_dtree.c, which changes a directory tree at
-- random to test inotify_dtree.c.
pub mod Names
pub mod Rounds
pub mod Marked
pub mod Kept
pub mod Swept
pub mod Tests
