-- ===== src/Queues/Stacks.antt =====
-- The stacks of each source file, over any combining object.
pub mod Cc
pub mod Dsm
pub mod Hier
pub mod Osci
pub mod Laws
