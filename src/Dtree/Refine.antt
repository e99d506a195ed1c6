-- ===== src/Dtree/Refine.antt =====
-- What the operations of inotify_dtree.c do to the map from watch descriptors to pathnames that the
-- cache stands for.
pub mod Add
pub mod Rename
pub mod Zap
