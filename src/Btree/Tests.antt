-- ===== src/Btree/Tests.antt =====
-- btree/key.rs: the laws of positions at concrete ones.
use volmount.Common.{◌≡◌, ◌≢◌, ◌↔◌, ◌⊎◌, refl, arith, true, not, ok, Ordering, ◌∷◌, []}
use volmount.Btree.Bpos.{
  Bpos, InRange, max_pos, successor, predecessor, bpos_eq, bpos_lt, bpos_le, bpos_gt, bpos_ge,
}
use volmount.Btree.Entry.{
  BtreeKey, BchVal, BtreeEntry, BtreePtrV2, normal, whiteout, extent, key_cmp, key_eq,
}
use volmount.Btree.Entry.Legacy.{key_cmp_eq}
use volmount.Btree.Pointer.{to_bytes, from_bytes}
use volmount.Btree.Pointer.Bytes.{PtrInRange, from_bytes-to_bytes}
use volmount.Btree.Bpos.Order.{bpos_order}
use volmount.Btree.Bpos.Neighbours.{successor_least, predecessor-successor}

abbrev last_snapshot : Bpos
last_snapshot = record { inode = 1; offset = 7; snapshot = 4294967295 }

abbrev next_offset : Bpos
next_offset = record { inode = 1; offset = 8; snapshot = 0 }

last_snapshot-InRange : InRange last_snapshot
last_snapshot-InRange = record {
  inode_fits = omega arith;
  offset_fits = omega arith;
  snapshot_fits = omega arith;
}

next_offset-InRange : InRange next_offset
next_offset-InRange = record {
  inode_fits = omega arith;
  offset_fits = omega arith;
  snapshot_fits = omega arith;
}

successor_test : successor last_snapshot ≡ next_offset
unfolding successor
successor_test = refl

bpos_order_example :
    ((bpos_lt last_snapshot next_offset ≡ true)
      ⊎ ((last_snapshot ≡ next_offset) ⊎ (bpos_lt next_offset last_snapshot ≡ true)))
    × (bpos_lt last_snapshot next_offset ≡ true → last_snapshot ≢ next_offset)
    × (bpos_gt last_snapshot next_offset ≡ bpos_lt next_offset last_snapshot)
    × (bpos_le last_snapshot next_offset ≡ not (bpos_lt next_offset last_snapshot))
    × (bpos_ge last_snapshot next_offset ≡ not (bpos_lt last_snapshot next_offset))
    × ((bpos_eq last_snapshot next_offset ≡ true) ↔ (last_snapshot ≡ next_offset))
    × (bpos_lt last_snapshot next_offset ≡ true
        → bpos_lt next_offset max_pos ≡ true
        → bpos_lt last_snapshot max_pos ≡ true)
bpos_order_example = bpos_order last_snapshot next_offset max_pos

successor_least_example :
    InRange (successor last_snapshot)
    × (bpos_lt last_snapshot (successor last_snapshot) ≡ true)
    × (bpos_lt last_snapshot next_offset ≡ true
        → bpos_le (successor last_snapshot) next_offset ≡ true)
successor_least_example =
    successor_least last_snapshot next_offset last_snapshot-InRange (ground arith)
      next_offset-InRange

predecessor-successor_example :
    (predecessor (successor last_snapshot) ≡ last_snapshot)
    × (successor (predecessor last_snapshot) ≡ last_snapshot)
predecessor-successor_example = predecessor-successor last_snapshot last_snapshot-InRange

abbrev old_key : BtreeKey
old_key = record { vaddr = 4096; snapshot_id = 9; key_type = normal; version = 3 }

abbrev old_value : BchVal
old_value = record { paddr = 77; ver = 2 }

abbrev extent_entry : BtreeEntry
extent_entry = record {
  pos = record { inode = 0; offset = 5; snapshot = 9 };
  key_type = whiteout;
  value = extent old_value;
}

key_cmp_eq_example :
    (key_cmp old_key (record old_key { version = 0 }) ≡ Ordering.eq)
    ↔ (key_eq old_key (record old_key { version = 0 }) ≡ true)
key_cmp_eq_example = key_cmp_eq old_key (record old_key { version = 0 })

abbrev pointer : BtreePtrV2
pointer = record { block_addr = 4294967300; sectors_written = 513; level = 2; generation = 65537 }

pointer-PtrInRange : PtrInRange pointer
pointer-PtrInRange = record {
  block_addr_fits = omega arith;
  sectors_written_fits = omega arith;
  level_fits = omega arith;
  generation_fits = omega arith;
}

to_bytes_test :
    to_bytes pointer ≡ 4 ∷ 0 ∷ 0 ∷ 0 ∷ 1 ∷ 0 ∷ 0 ∷ 0 ∷ 1 ∷ 2 ∷ 2 ∷ 0 ∷ 1 ∷ 0 ∷ 1 ∷ 0 ∷ []
unfolding to_bytes
to_bytes_test = refl

from_bytes-to_bytes_example : from_bytes (to_bytes pointer) ≡ ok pointer
from_bytes-to_bytes_example = from_bytes-to_bytes pointer pointer-PtrInRange
