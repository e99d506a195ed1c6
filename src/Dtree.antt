-- ===== src/Dtree.antt =====
-- The directory-tree watcher, The-Linux-Programming-Interface/tlpi-dist/inotify/inotify_dtree.c.
pub mod Paths
pub mod Kernel
pub mod State
pub mod Cache
pub mod Slots
pub mod Roots
pub mod Subtree
pub mod Events
pub mod Reader
pub mod Commands
pub mod Counter
pub mod Consumed
pub mod Main
pub mod Invariant
pub mod Refine
pub mod Progress
pub mod Ending
pub mod Check
pub mod Rebuild
mod Tests
