-- ===== src/Btree/WriteBuffer/Flush.antt =====
-- btree/write_buffer.rs: a flush leaves the newest key of each place in the engine.
use volmount.Common.{ℕ, Bool, List, [], ◌++◌, ◌≡◌}
use volmount.Btree.Bpos.{Bpos}
use volmount.Btree.Entry.{BtreeId}
use volmount.Btree.WriteBuffer.{BtreeWriteBufferedKey, BtreeWriteBuffer}
use volmount.Btree.WriteBuffer.Pipeline.{
  WbKeyRef, build_sorted_index, dedup_sorted_refs, Engine, flush_fastpath, flush_slowpath,
  bch2_btree_write_buffer_flush_locked,
}
use volmount.Btree.WriteBuffer.Attempt.{value_of}
use volmount.Btree.WriteBuffer.Refs.{Sorts, Typed, NewestAt, NoneAt}

abbrev no_pos : Bpos
no_pos = record { inode = 0; offset = 0; snapshot = 0 }

module _ (sort : List WbKeyRef → List WbKeyRef) (sorts : Sorts sort) (engine : Engine)
    (keys : List BtreeWriteBufferedKey) (typed : Typed keys) where
  open engine use {State, entry_at}

  abbrev refs : List WbKeyRef
  refs = sort (build_sorted_index 0 keys)

  abbrev deduped : List WbKeyRef
  deduped = dedup_sorted_refs keys refs

  abbrev fast : State → List WbKeyRef × State
  fast s = flush_fastpath engine keys deduped s

  abbrev both : Bool → State → Bool × State
  both journal s = flush_slowpath engine keys journal (fast s).0 (fast s).1

abbrev pub pending : BtreeWriteBuffer → List BtreeWriteBufferedKey
pending wb = wb.flushing.keys ++ wb.inc.keys

-- What a flush does to the buffer and the engine.
pub record IsFlushed (engine : Engine) (wb wb' : BtreeWriteBuffer) (s s' : engine.State)
    : Type 0 where
  pub newest_held :
      (id : BtreeId) (pos : Bpos) (i : ℕ) (k : BtreeWriteBufferedKey)
      → NewestAt (pending wb) id pos i k
      → engine.entry_at s' id pos ≡ value_of k
  pub others_kept :
      (id : BtreeId) (pos : Bpos)
      → NoneAt (pending wb) id pos
      → engine.entry_at s' id pos ≡ engine.entry_at s id pos
  pub emptied : pending wb' ≡ []

module _ (sort : List WbKeyRef → List WbKeyRef) (sorts : Sorts sort) (engine : Engine) where
  open engine use {State}

  abbrev flush : Bool → BtreeWriteBuffer → State → Bool × BtreeWriteBuffer × State
  flush = bch2_btree_write_buffer_flush_locked engine sort
