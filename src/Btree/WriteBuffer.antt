-- ===== src/Btree/WriteBuffer.antt =====
-- btree/write_buffer.rs: the write buffer of a btree: its queues, and the triggers of a flush. The
-- capacity of the vectors, which the allocator chooses, is an argument.
pub mod Pipeline
pub mod Dedup
pub mod Attempt
pub mod Inserts
pub mod Refs
pub mod Flush
mod Tests
use volmount.Common.{
  ℕ, zero, suc, ◌+◌, ◌*◌, ◌/◌, ltb, if◌then◌else◌, Bool, true, false, ◌||◌, List, [], ◌∷◌, ◌++◌,
  length, max, compare, Ordering, Option, none, some,
}
use volmount.Btree.Bpos.{Bpos, bpos_cmp, then_with}
use volmount.Btree.Entry.{
  BtreeKey, BchVal, KeyType, BtreeId, extents, subvolumes, snapshots, snapshot_trees, alloc,
  freespace, bucket_gens, index, from_key,
}

pub data BchWbBtree : Type 0 where
  accounting lru need_discard backpointers deleted_inodes reconcile_work reconcile_hipri :
      BchWbBtree
  reconcile_pending reconcile_work_phys reconcile_hipri_phys stripe_backpointers : BchWbBtree

pub record BtreeWriteBufferedKey : Type 0 where
  pub journal_seq : ℕ
  pub btree_id : BtreeId
  pub key : BtreeKey
  pub value : BchVal
  pub key_type : KeyType

pub record BtreeWriteBufferKeys : Type 0 where
  pub keys : List BtreeWriteBufferedKey
  pub nr : ℕ

pub record BtreeWriteBuffer : Type 0 where
  pub idx : BchWbBtree
  pub inc : BtreeWriteBufferKeys
  pub flushing : BtreeWriteBufferKeys
  pub nr_flushes : ℕ
  pub nr_keys_flushed : ℕ

abbrev no_keys : BtreeWriteBufferKeys
no_keys = record { keys = []; nr = 0 }

abbrev pub btree_write_buffer_new : BchWbBtree → BtreeWriteBuffer
btree_write_buffer_new idx = record {
  idx = idx;
  inc = no_keys;
  flushing = no_keys;
  nr_flushes = 0;
  nr_keys_flushed = 0;
}

unfoldable pub bch2_journal_key_to_wb :
    BtreeId → BtreeKey → BchVal → ℕ → BtreeWriteBuffer → BtreeWriteBuffer
bch2_journal_key_to_wb btree_id key value journal_seq wb =
    let keys =
      wb.inc.keys
      ++ record {
        journal_seq = journal_seq;
        btree_id = btree_id;
        key = key;
        value = value;
        key_type = key.key_type;
      }
        ∷ [] in
    record wb { inc = record { keys = keys; nr = length keys } }

unfoldable pub move_keys_from_inc_to_flushing : BtreeWriteBuffer → BtreeWriteBuffer
move_keys_from_inc_to_flushing wb =
    let keys = wb.flushing.keys ++ wb.inc.keys in
    record wb { flushing = record { keys = keys; nr = length keys }; inc = no_keys }

unfoldable pub bch2_btree_write_buffer_must_wait : ℕ → BtreeWriteBuffer → Bool
bch2_btree_write_buffer_must_wait capacity wb =
    ltb (max capacity 1 * 3 / 4) (wb.inc.nr + wb.flushing.nr)

-- Each buffer comes with the capacity of its inner queue.
unfoldable pub bch2_journal_keys_to_write_buffer_end : List (ℕ × BtreeWriteBuffer) → ℕ
bch2_journal_keys_to_write_buffer_end [] = 0
bch2_journal_keys_to_write_buffer_end ((capacity, wb) ∷ set) =
    if ltb (max capacity 1 / 4) wb.inc.nr then 1 else bch2_journal_keys_to_write_buffer_end set

unfoldable pub bch2_journal_write_buffer_need_flush : List BtreeWriteBuffer → Bool
bch2_journal_write_buffer_need_flush [] = false
bch2_journal_write_buffer_need_flush (wb ∷ wbs) =
    ltb 0 wb.inc.nr || ltb 0 wb.flushing.nr || bch2_journal_write_buffer_need_flush wbs

unfoldable pub bch2_fs_btree_write_buffer_exit : List BtreeWriteBuffer → List BtreeWriteBuffer
bch2_fs_btree_write_buffer_exit [] = []
bch2_fs_btree_write_buffer_exit (wb ∷ set) =
    record wb { inc = no_keys; flushing = no_keys } ∷ bch2_fs_btree_write_buffer_exit set

unfoldable pub wb_key_cmp : BtreeWriteBufferedKey → BtreeWriteBufferedKey → Ordering
wb_key_cmp a b =
    then_with (compare (index a.btree_id) (index b.btree_id))
      (bpos_cmp (from_key a.key) (from_key b.key))

unfoldable pub bch_wb_btree_idx : BtreeId → BchWbBtree
bch_wb_btree_idx extents = accounting
bch_wb_btree_idx subvolumes = lru
bch_wb_btree_idx snapshots = need_discard
bch_wb_btree_idx snapshot_trees = backpointers
bch_wb_btree_idx alloc = deleted_inodes
bch_wb_btree_idx freespace = reconcile_work
bch_wb_btree_idx bucket_gens = reconcile_work
