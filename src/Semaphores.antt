-- ===== src/Semaphores.antt =====
-- The binary semaphores of The-Linux-Programming-Interface/tlpi-dist/svsem/binary_sems.c.
pub mod Binary
pub mod Counting
mod Tests
