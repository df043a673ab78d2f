-- ===== src/Lib.antt =====
-- A verification library for Synch (sim-universal-construction): concurrent queues, stacks, hash tables,
-- combining objects and the runtime below them, in C.
--
-- Each module models the code that its own comment names, with one function for each C function or for each
-- part of one between two waits. Pointers are `Option ℕ` with `none` for NULL, or ℕ where they cannot be
-- NULL; the fields of nodes are functions of the address; `int64_t` values are ℤ, and unsigned words are ℕ with
-- their wrap-around written out.
--
--   Prelude    names, lists, bits and powers that the modules share
--   Pool       libconcurrent/primitives/pool.c
--   Random     libconcurrent/primitives/fastrand.c
--   Backoff    libconcurrent/primitives/backoff.c
--   Threads    libconcurrent/primitives/threadtools.c: placement and start
--   Fibers     libconcurrent/primitives/uthreads.c
--   Tvec       libconcurrent/includes/tvec.h, and the announcement and the loop of
--              libconcurrent/concurrent/sim.c
--   Combining  libconcurrent/concurrent/ccsynch.c, dsmsynch.c, hsynch.c, fc.c
--              and oyama.c
--   Queues     libconcurrent/concurrent/{cc,dsm,h,osci,fc}queue.c and {cc,dsm,h,osci,fc}stack.c
--   Hash       libconcurrent/concurrent/clhhash.c and dsmhash.c
--   Barrier    libconcurrent/primitives/barrier.c
--   Locks      libconcurrent/concurrent/clh.c and mcs.c
--   LockFree   libconcurrent/concurrent/lfstack.c, msqueue.c and lfuobject.c
--
-- The queues, stacks and hash tables take the combining object that runs their serial code as a parameter,
-- the record Queues.Combiner: while no thread is at work, an operation has the effect and the result of the
-- serial function run once, and again no thread is at work. `alone` is such an object, and so is CC-Synch
-- (Combining.Instance), on which Queues.OnCc puts the CC-Queue. Combining shows of CC-Synch, DSM-Synch, H-Synch,
-- flat combining and Oyama's object what a pass of a combiner does. A pass is one step there: requests that other threads
-- announce while it runs are not in its chain. The bounds on the rounds of a pass are products without the
-- wrap-around of uint32_t and int, which needs more than 200 million threads. Of H-Synch's central lock the model
-- has whether it is held.
--
-- Locks, LockFree and Barrier are step relations: a thread has a program counter, every access to shared memory is
-- a step of its own, and the threads' steps come in any order, on a memory that is sequentially consistent.
-- The calls and returns in a run of a lock-free object, and what takes effect between them, are recorded as they
-- happen; what takes effect is compared with a list, and each thread's calls with what they take effect as.
-- In mcs.c the load of a thread's own `next`, which is set by then, is one step with the store through it.
-- The nodes of LF-Stack and MS-Queue are new whenever they are allocated, as these objects give none back.
--
-- Loops over nodes, blocks and fibers are on fuel, and `none` is a lack of fuel; the theorems on them say how
-- much is enough: one round more than there are nodes, two for an allocation, two
-- for the outer loop of Oyama's object, one more than there are
-- blocks for a rollback, 65 for the bits of a word, the last of which ends the loop.
--
-- A negative key can lead out of the hash tables' cells, which the model has as `none`; the theorems are for keys
-- from 0 on. Recycling a node stores a word in it, an argument of the
-- dequeues and pops that the theorems leave open.
--
-- Not modelled: the atomic primitives, fences, the freeing of fibers and the memory allocator (parameters, or
-- single steps), the counters of DEBUG builds, statistics, argument parsing, the benchmarks, and the objects of
-- libconcurrent/concurrent that are not named above.
pub mod Prelude
pub mod Pool
pub mod Random
pub mod Backoff
pub mod Threads
pub mod Fibers
pub mod Barrier
pub mod Tvec
pub mod Combining
pub mod Queues
pub mod Hash
pub mod Locks
pub mod LockFree
