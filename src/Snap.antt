-- ===== src/Snap.antt =====
-- Snapshots: their records, and the table that answers questions of ancestry.
pub mod Meta
pub mod Table
mod Tests
