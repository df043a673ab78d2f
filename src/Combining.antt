-- ===== src/Combining.antt =====
-- The combining objects: ccsynch.c, dsmsynch.c, fc.c, hsynch.c and oyama.c of
-- libconcurrent/concurrent.
pub mod Cc
pub mod Serves
pub mod Solo
pub mod Dsm
pub mod DsmServes
pub mod Flat
pub mod FlatServes
mod Tests
mod HierTests
mod OyamaTests
pub mod Instance
pub mod Hier
pub mod HierTopology
pub mod HierServes
pub mod Oyama
pub mod OyamaServes
