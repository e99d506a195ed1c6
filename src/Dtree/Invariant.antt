-- ===== src/Dtree/Invariant.antt =====
-- What holds of the globals of inotify_dtree.c between two calls of its functions.
pub mod Rules
pub mod Slots
pub mod Calls
pub mod Checks
pub mod Branches
pub mod Loop
pub mod Start
