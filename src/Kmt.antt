-- ===== src/Kmt.antt =====
-- Kernel threads, the scheduler and semaphores: src/kmt.c, with include/kmt.h.
mod Tests
pub mod State
pub mod Threads
pub mod Semaphore
pub mod Schedule
pub mod Fair
pub mod Mutex
pub mod Life
pub mod Teardown
