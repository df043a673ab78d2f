-- ===== src/LockFree.antt =====
-- The lock-free objects: libconcurrent/concurrent/lfstack.c, msqueue.c and lfuobject.c.
pub mod Calls
pub mod Threads
pub mod Stack
pub mod MsQueue
pub mod Object
mod Tests
mod QueueTests
mod ObjectTests
