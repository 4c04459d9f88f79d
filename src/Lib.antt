-- ===== src/Lib.antt =====
-- Cluster-STM: a software transactional memory for clusters on a global address space.
--
-- The program. Implementation/grt is the runtime: reads, writes and locks on the words of any
-- processor, by active messages whose handlers run on the processor that owns the word.
-- Implementation/stm/stm-distrib.c is the distributed STM on top of it: memory is tracked in aligned
-- blocks of 2^stm_share_power words, each with a metadata word on its owner, and each processor keeps
-- one transaction descriptor for every processor that may access its memory. A transaction opens
-- blocks for reading or writing, which takes their locks, and ends by stm_finish_local on every
-- processor that it touched. Implementation/stm/stm_base.c is an STM on single words, with a cache, a
-- version for each block, and all locks taken at commit.
--
-- The model.
--   * Grt.List, Grt.Map: grt_list.c and grt_map.c. Grt.Memory: grt_read, grt_write, grt_cas and their
--     handlers in grt.c, the halves of words in grt_types.h, the distribution macros of grt_macros.h.
--     Grt.Lock: the queued lock of grt.c; Grt.Lock.Handoff runs requests and releases in any order.
--     Grt.NewLock: the second kind of locks, on GASNet's handler-safe locks, which are a parameter
--     (Hsl). Grt.Alloc: grt_alloc and grt_all_alloc, whose barriers are lists of arrivals.
--     Grt.Random: grt_random.c, whose doubles are whole numbers; 64 rounds are enough for a 64-bit n.
--   * Stm.Types, Stm.Meta, Stm.Node: the enumerations and compile-time switches, the metadata words
--     (64 bits, with wrap-around) and their addresses, the state of one processor (stm-distrib.h and
--     the head of stm-distrib.c). Bytes and words are natural numbers, memory is a function.
--   * Stm.Hashmap: what the code relies on of libmba's hash map, which is not in the repository. It is
--     a parameter (Libs); Tests.AssocMap meets it with an association list.
--   * Stm.Open: open_read, open_write and open_local; Stm.Copy: memcpy_wb and the local case of
--     stm_get and stm_put; Stm.Finish: stm_finish_local, stm_acquire_local, stm_validate_local.
--   * Stm.Locking: the lock protocol of one processor in any interleaving of transactions. A step is
--     one access under meta_lock, one copy, or the end of a transaction.
--   * Stm.UndoLog: atomicity on one processor without WRITE_BUFFERING. The committed contents of a
--     byte are what the undo log of the transaction that writes its block would bring back; histories
--     are gets, puts, commits and aborts in any order.
--   * Stm.WriteBuffer: what a transaction sees with WRITE_BUFFERING, which is its write buffers and
--     memory elsewhere, and how opens, gets and puts change it. Abstract is a transactional memory
--     with no locks, blocks or buffers; Kept, Isolated and Refinement relate one processor's memory
--     to it.
--   * Stm.Cluster: stm_start, stm_commit, stm_finish, stm_get and stm_put over all processors, with
--     their handlers. Stm.Cluster.Protocol: moves of the processors in any interleaving, each at one
--     processor at a time; a transaction records a processor before it opens blocks there, and a
--     processor that was asked to finish answers once (Tracking, Exclusion). Stm.Cluster.Interleaved:
--     the calls as sequences of moves. Stm.Cluster.On: stm_on and stm_alloc. Stm.Alloc: the layout
--     that stm_init chooses, and stm_alloc_local.
--   * Base.Memory, Base.Transaction: stm_base.c, its versions and its transactions.
--   * HashmapSwap: the hash map of Benchmarks/hashmap-swap/lib/hashmap-locks.c, its hash function and
--     the locks that a swap takes, with grt_on of grt.c. The allocator's answer is a parameter.
--   * Tests: runs on concrete processors.
--
-- Numbers that are sent as arguments of a handler pass through Common.Words.handlerarg, which has 32
-- bits and a sign, where the handler uses it. The numbers of processors are taken to be below 2^31 - 1
-- where the code casts them to gasnet_node_t in the table of remote processors, and stm_share_power
-- below 31, where 1 << stm_share_power is defined.
--
-- A request to another processor is answered, and its reply handled, before its sender goes on: the
-- code waits for the reply. Loops whose bound is a counter run on fuel (open_loop, copy_loop), for
-- which a round for each byte, and for each byte of a block, is enough; their result out_of_fuel is
-- apart from every result of the code. A jump to the start of a transaction is a result, Ending or
-- Status, of the call that makes it.
--
-- Not modelled: GASNet, libmba, pthreads and umalloc (third-party code), the threads that run the
-- functions of stm_on and grt_on, the freeing of memory, backoff, statistics, debug output, and the
-- other benchmarks.
pub mod Common
pub mod Grt
pub mod Stm
pub mod Base
pub mod HashmapSwap
mod Tests
