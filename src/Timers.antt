-- ===== src/Timers.antt =====
-- The timer settings of The-Linux-Programming-Interface/tlpi-dist/timers/itimerspec_from_str.c.
pub mod Setting
pub mod Written
mod Tests
