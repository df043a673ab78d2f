-- ===== src/Queues.antt =====
-- The queues and stacks that run serial code under a combining object: libconcurrent/concurrent/
-- {cc,dsm,h,osci,fc}queue.c and {cc,dsm,h,osci,fc}stack.c, with includes/queue-stack.h.
--
-- `Nodes` has the linked nodes, `Combiner` what the objects ask of a combining object, `Serial`,
-- `SerialStack` and `Flat` the serial code, and `Files` and
-- `Stacks` the operations of each source file. `Runs` is about sequences of operations, and `OnCc`
-- takes them to the combining object of ccsynch.c.
pub mod Nodes
pub mod Combiner
pub mod Serial
pub mod Fifo
pub mod Struct
pub mod Files
pub mod SerialStack
pub mod Lifo
pub mod Stacks
pub mod Flat
pub mod FlatLaws
pub mod Runs
pub mod OnCc
mod Tests
mod RunTests
