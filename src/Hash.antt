-- ===== src/Hash.antt =====
-- The hash tables: libconcurrent/concurrent/clhhash.c and libconcurrent/concurrent/dsmhash.c.
pub mod Serial
pub mod Chain
pub mod Struct
pub mod Clh
pub mod Dsm
pub mod Laws
mod Tests
