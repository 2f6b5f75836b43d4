-- ===== src/Alloc.antt =====
-- The allocator: bucket metadata and the reservation of sectors.
pub mod Bucket
pub mod Reservation
pub mod OpenBucket
mod Tests
