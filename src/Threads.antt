-- ===== src/Threads.antt =====
-- Two programs of The-Linux-Programming-Interface/tlpi-dist/threads that share variables under a mutex
-- and wait on a condition variable: thread_multijoin.c and prod_condvar.c.
pub mod Joining
pub mod Joined
pub mod Ended
pub mod Bounded
pub mod Producing
pub mod Produced
pub mod Consumed
pub mod Supplied
pub mod Tests
