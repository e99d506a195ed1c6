-- ===== src/Transfer.antt =====
-- The transfer of a stream through shared memory,
-- The-Linux-Programming-Interface/tlpi-dist/svshm/svshm_xfr_writer.c and svshm_xfr_reader.c.
pub mod System
pub mod Invariant
pub mod Progress
mod Tests
