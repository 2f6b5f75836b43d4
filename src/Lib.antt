-- ===== src/Lib.antt =====
-- A model of the core of volmount, a block store built after bcachefs.
--
-- The program keeps volumes as extents in copy-on-write B-trees (crates/volmount-core/src/btree),
-- writes every change first to a journal (journal), allocates disk space by buckets (alloc), and
-- shares data between snapshots (snap). After a crash, recovery replays the journal; until that is
-- done, writes go to an overlay of journal keys that reads look through (recovery/overlay.rs).
--
-- Which file models what (paths below crates/volmount-core/src):
--   Alloc/Bucket          alloc/bucket.rs: bucket metadata and the derived data type.
--   Alloc/Reservation     alloc/reservation.rs: `bch2_disk_reservation_add`, `get`, `commit`, `put`.
--     Calls, Ledger       laws of one call, and of runs of calls on a tracker with all its
--                         reservations.
--   Alloc/OpenBucket      alloc/open_bucket.rs: the pool of open buckets, its free list and hash
--                         table; Runs: runs of all its calls; Pins: pins, the partial list and
--                         reuse.
--   Btree/Bpos            btree/key.rs: positions, their order and neighbours.
--   Btree/Entry           btree/key.rs, btree/types.rs, btree/mod.rs: keys, values, entries, trees.
--   Btree/Pointer         btree/types.rs: the bytes of a child pointer.
--   Btree/KeyCache        btree/key_cache.rs: the slots of the key cache, its dirty entries and counts.
--   Btree/CachedTree      btree/btree.rs, btree/mod.rs: reads and writes of a tree through its cache.
--   Btree/WriteBuffer     btree/write_buffer.rs: the queues; Pipeline: the flush; Dedup, Inserts,
--                         Flush: what it leaves.
--   Recovery/Overlay      recovery/overlay.rs: `JournalKeys`.
--     Drain               btree/mod.rs: the engine's raw reads and writes through the overlay.
--     Refine, Replay      the overlay against a map from positions to entries.
--   Journal/PinFifo       journal/reclaim.rs: the ring of pin lists, and the advance of
--                         `last_seq_ondisk`.
--   Journal/Pins          journal/reclaim.rs: the pins on the lists; Runs: runs of all its calls;
--                         Flush: which pin is flushed next, and the flush loop.
--   Journal/ResState      journal/types.rs: `JournalResState`, the packed word of reservations.
--     Reservations        all its reservations as a step relation.
--   Snap/Meta, Snap/Table snap/meta.rs, snap/table.rs: snapshot records, and ancestor queries.
--   Lock/Six              lock/six.rs: the state word of `SixLock` in its standard mode; System: the
--                         threads that share a lock, as a step relation.
--   Lock/WaitFifo         lock/wait_fifo.rs: the slots of a lock's waiters.
--   Lock/Deadlock         lock/deadlock.rs: the search for a cycle of waiting transactions.
--
-- Numbers are native natural numbers. A machine word wraps where the source's does: `u32` and `u64`
-- of Common/Tests are the remainders, `add64` and `sub64` of Common/Outcomes the atomic operations.
-- An atomic operation or a compare-exchange loop is one step. `Cell` and `RefCell` contents are
-- fields of the state that is passed.
--
-- Fuel: `is_ancestor` and `root` walk upwards through ids, so that as many rounds as there are
-- ids from the start to the end are enough; the theorems on them say that they return. The walk
-- of `drainable_front_count_zero` has 128 rounds, the size of the ring. `detect` has three rounds
-- for each waiter and three more. The walks along a hash chain of `lookup` and `put` have 129
-- rounds, since a chain has at most 128 entries; that `lookup` returns is proved for all runs.
-- `journal_flush_pins` is on fuel, since its callbacks may pin again without end; for callbacks
-- that leave the journal as it is, a fuel above the number of unflushed pins is proved to be
-- enough.
--
-- Not modelled: per-cpu readers and the slow path of locks, device and network IO, threads and
-- their parking, checksums and serialisation libraries, the nodes and transactions of the trees
-- (the overlay uses them through the record `Trees`, the key cache through `Nodes`, and the write
-- buffer through `Engine`, whose laws say that an insert is seen at its position alone), the
-- daemon, the NBD server and the command line.
pub mod Common
pub mod Alloc
pub mod Btree
pub mod Recovery
pub mod Journal
pub mod Lock
pub mod Snap
