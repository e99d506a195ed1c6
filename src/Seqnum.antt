-- ===== src/Seqnum.antt =====
-- The-Linux-Programming-Interface/tlpi-dist/sockets/is_seqnum_sv.c, a server of sequence numbers.
pub mod Server
pub mod Request
pub mod Distinct
pub mod Tests
