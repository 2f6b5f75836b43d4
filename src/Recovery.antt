-- ===== src/Recovery.antt =====
-- Recovery: the overlay of journal keys over the trees while the journal is replayed.
pub mod Overlay
mod Tests
