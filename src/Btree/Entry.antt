-- ===== src/Btree/Entry.antt =====
-- btree/key.rs, btree/types.rs, btree/mod.rs: the trees' names, and the entries that they hold.
pub mod Legacy
use volmount.Common.{
  ℕ, zero, suc, ◌^◌, ◌%◌, ◌==◌, Bool, Option, none, some, List, compare, Ordering, ◌&&◌,
}
use volmount.Btree.Bpos.{Bpos, then_with}

pub data KeyType : Type 0 where
  normal deleted whiteout : KeyType

-- The discriminant, `key_type as u8`.
abbrev pub key_type_code : KeyType → ℕ
key_type_code normal = 0
key_type_code deleted = 1
key_type_code whiteout = 2

-- `none` is the panic on any other number.
unfoldable pub key_type_from_u8 : ℕ → Option KeyType
key_type_from_u8 zero = some normal
key_type_from_u8 (suc zero) = some deleted
key_type_from_u8 (suc (suc zero)) = some whiteout
key_type_from_u8 (suc (suc (suc n))) = none

pub record BchVal : Type 0 where
  pub paddr : ℕ
  pub ver : ℕ

pub record BtreePtrV2 : Type 0 where
  pub block_addr : ℕ
  pub sectors_written : ℕ
  pub level : ℕ
  pub generation : ℕ

pub data KeyValue : Type 0 where
  extent : BchVal → KeyValue
  btree_ptr : BtreePtrV2 → KeyValue
  raw : List ℕ → KeyValue

unfoldable pub as_extent : KeyValue → Option BchVal
as_extent (extent v) = some v
as_extent (btree_ptr p) = none
as_extent (raw b) = none

unfoldable pub as_btree_ptr : KeyValue → Option BtreePtrV2
as_btree_ptr (extent v) = none
as_btree_ptr (btree_ptr p) = some p
as_btree_ptr (raw b) = none

pub record BtreeEntry : Type 0 where
  pub pos : Bpos
  pub key_type : KeyType
  pub value : KeyValue

pub data BtreeId : Type 0 where
  extents subvolumes snapshots snapshot_trees alloc freespace bucket_gens : BtreeId

abbrev pub index : BtreeId → ℕ
index extents = 0
index subvolumes = 1
index snapshots = 2
index snapshot_trees = 3
index alloc = 4
index freespace = 5
index bucket_gens = 6

-- The derived `==` of `BtreeId`.
abbrev pub same_tree : BtreeId → BtreeId → Bool
same_tree a b = index a == index b

pub record BtreeKey : Type 0 where
  pub vaddr : ℕ
  pub snapshot_id : ℕ
  pub key_type : KeyType
  pub version : ℕ

unfoldable pub from_key : BtreeKey → Bpos
from_key key = record { inode = 0; offset = key.vaddr; snapshot = key.snapshot_id }

unfoldable pub from_bpos : Bpos → KeyType → BtreeKey
from_bpos pos key_type = record {
  vaddr = pos.offset;
  snapshot_id = pos.snapshot;
  key_type = key_type;
  version = 0;
}

-- `PartialEq` of keys: the version does not count.
unfoldable pub key_eq : BtreeKey → BtreeKey → Bool
key_eq a b =
    a.vaddr == b.vaddr
    && a.snapshot_id == b.snapshot_id
    && key_type_code a.key_type == key_type_code b.key_type

-- `Ord` of keys: newer snapshots, which have smaller ids, come last.
unfoldable pub key_cmp : BtreeKey → BtreeKey → Ordering
key_cmp a b =
    then_with (then_with (compare a.vaddr b.vaddr) (compare b.snapshot_id a.snapshot_id))
      (compare (key_type_code a.key_type) (key_type_code b.key_type))

legacy_value : KeyValue → BchVal
legacy_value (extent v) = v
legacy_value (btree_ptr p) = record { paddr = p.block_addr; ver = p.generation % 2 ^ 16 }
legacy_value (raw b) = record { paddr = 0; ver = 0 }

unfoldable pub to_legacy : BtreeEntry → BtreeKey × BchVal
unfolding legacy_value
to_legacy e = (
  record { vaddr = e.pos.offset; snapshot_id = e.pos.snapshot; key_type = e.key_type; version = 0 },
  legacy_value e.value,
)

unfoldable pub from_legacy : BtreeKey → BchVal → BtreeEntry
from_legacy key value = record {
  pos = record { inode = 0; offset = key.vaddr; snapshot = key.snapshot_id };
  key_type = key.key_type;
  value = extent value;
}
