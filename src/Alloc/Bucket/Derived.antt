-- ===== src/Alloc/Bucket/Derived.antt =====
-- alloc/bucket.rs: the data type that the sector counts of a bucket imply.
use volmount.Common.{◌≡◌, ◌≢◌, ◌↔◌, arith}
use volmount.Alloc.Bucket.{
  BchDataType, free, need_gc_gens, need_discard, reserved, free_discarded, free_available, sb_only,
  Bucket, derive_state, derive_data_type, dirty_type,
}

dirty_type-not_free : (d : BchDataType) → dirty_type d ≢ free
unfolding dirty_type
dirty_type-not_free d = ground arith

-- The method and the function derive the same type; it is `free` exactly when the bucket holds no
-- sector of any kind, and never one of the transient states of a bucket.
pub derive_state_lem :
    (b : Bucket)
    → (derive_state b ≡ derive_data_type b.dirty_sectors b.cached_sectors b.stripe b.state)
      × ((derive_state b ≡ free)
          ↔ ((b.dirty_sectors ≡ 0) × (b.cached_sectors ≡ 0) × (b.stripe ≡ 0)))
      × (derive_state b ≢ need_gc_gens)
      × (derive_state b ≢ need_discard)
      × (derive_state b ≢ reserved)
      × (derive_state b ≢ free_discarded)
      × (derive_state b ≢ free_available)
      × (derive_state b ≢ sb_only)
unfolding derive_state derive_data_type dirty_type
derive_state_lem b = (
  ground arith,
  ground arith,
  ground arith,
  ground arith,
  ground arith,
  ground arith,
  ground arith,
  ground arith,
)
