-- ===== src/Queues/Files.antt =====
-- The queues of each source file, over any combining object.
--
-- A struct holds the two combining objects and the queue, whose nodes the enqueuers and the dequeuers
-- share. `guard` is the address of the struct's guard node.
pub mod Cc
pub mod Dsm
pub mod Hier
pub mod Osci
pub mod Laws
