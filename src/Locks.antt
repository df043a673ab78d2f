-- ===== src/Locks.antt =====
-- The locks: libconcurrent/concurrent/clh.c and mcs.c.
pub mod Clh
pub mod Mcs
mod Tests
mod McsTests
