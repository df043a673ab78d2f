-- ===== src/Threads.antt =====
-- libconcurrent/primitives/threadtools.c: where threads run, and which ids a start gives work to.
pub mod Placement
pub mod Spread
pub mod Start
pub mod StartIds
mod Tests
