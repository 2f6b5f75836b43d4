-- ===== src/Btree.antt =====
-- The B-tree's search positions.
pub mod Bpos
pub mod Entry
pub mod Pointer
pub mod KeyCache
pub mod WriteBuffer
pub mod CachedTree
mod Tests
