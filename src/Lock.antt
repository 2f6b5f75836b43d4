-- ===== src/Lock.antt =====
-- Locks: the state word of a lock, its waiters, and the detection of deadlocks among transactions.
pub mod Deadlock
pub mod Six
pub mod WaitFifo
mod Tests
