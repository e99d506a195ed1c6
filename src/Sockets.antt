-- ===== src/Sockets.antt =====
-- The reading and writing routines of The-Linux-Programming-Interface/tlpi-dist/sockets: rdwrn.c,
-- read_line.c and read_line_buf.c.
pub mod Reading
pub mod Writing
pub mod LineBuffer
pub mod Stream
pub mod Exactly
pub mod Whole
pub mod Line
pub mod BytesLeft
pub mod Buffered
mod Tests
