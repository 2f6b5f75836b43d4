-- ===== src/Btree/WriteBuffer/Pipeline.antt =====
-- btree/write_buffer.rs: the flush: the keys are sorted by place, the newest of each place is kept, and
-- these are inserted, first directly and then by transactions. The engine is an interface: what it holds
-- at each place. `sort` stands for `sort_unstable_by`, which leaves equal elements in any order.
use volmount.Common.{
  ℕ, ◌+◌, ltb, leb, ◌==◌, if◌then◌else◌, Bool, true, false, ◌&&◌, Option, none, some, List, [], ◌∷◌,
  get_elem?, ◌≡◌, add64, compare, Ordering,
}
use volmount.Btree.Bpos.{Bpos, bpos_eq, then_with}
use volmount.Btree.Entry.{
  BtreeKey, BchVal, KeyType, key_type_code, BtreeId, index, same_tree, from_key,
}
use volmount.Btree.WriteBuffer.{
  BtreeWriteBufferedKey, BtreeWriteBuffer, move_keys_from_inc_to_flushing,
  bch2_btree_write_buffer_must_wait,
}

pub record WbKeyRef : Type 0 where
  pub idx : ℕ
  pub btree_id : ℕ
  pub inode : ℕ
  pub offset : ℕ
  pub snapshot : ℕ
  pub journal_seq : ℕ

abbrev pub key_to_wb_key_ref : ℕ → BtreeWriteBufferedKey → WbKeyRef
key_to_wb_key_ref idx k = record {
  idx = idx;
  btree_id = index k.btree_id;
  inode = 0;
  offset = k.key.vaddr;
  snapshot = k.key.snapshot_id;
  journal_seq = k.journal_seq;
}

unfoldable pub build_sorted_index : ℕ → List BtreeWriteBufferedKey → List WbKeyRef
build_sorted_index i [] = []
build_sorted_index i (k ∷ keys) = key_to_wb_key_ref i k ∷ build_sorted_index (i + 1) keys

abbrev pub same_place : WbKeyRef → WbKeyRef → Bool
same_place a b =
    a.btree_id == b.btree_id
    && a.inode == b.inode
    && a.offset == b.offset
    && a.snapshot == b.snapshot

-- The comparison that `wb_sort` sorts by.
abbrev pub place_cmp : WbKeyRef → WbKeyRef → Ordering
place_cmp a b =
    then_with
      (then_with (then_with (compare a.btree_id b.btree_id) (compare a.inode b.inode))
        (compare a.offset b.offset))
      (compare a.snapshot b.snapshot)

-- The loops of `dedup_sorted_refs`: `current` starts a run of one place and `best` is the last with
-- the greatest number so far.
module _ (keys : List BtreeWriteBufferedKey) where
  abbrev pub live_ref : WbKeyRef → Bool
  live_ref r = elim (get_elem? keys r.idx) [ none ↦ false | some k ↦ ltb 0 k.journal_seq ]

  abbrev pub emit : WbKeyRef → List WbKeyRef → List WbKeyRef
  emit best rest = if live_ref best then best ∷ rest else rest

  unfoldable pub dedup_run : WbKeyRef → WbKeyRef → List WbKeyRef → List WbKeyRef
  dedup_run current best [] = emit best []
  dedup_run current best (next ∷ refs) =
      let longer =
        dedup_run current (if leb best.journal_seq next.journal_seq then next else best) refs in
      let ended = emit best (dedup_run next next refs) in
      if same_place next current then longer else ended

  unfoldable pub dedup_sorted_refs : List WbKeyRef → List WbKeyRef
  unfolding dedup_run
  dedup_sorted_refs [] = []
  dedup_sorted_refs (r ∷ refs) = dedup_run r r refs

-- Whether a key belongs at a place.
abbrev pub belongs : BtreeId → Bpos → BtreeId → BtreeKey → Bool
belongs id pos btree_id key = same_tree btree_id id && bpos_eq (from_key key) pos

pub record Engine : Type 1 where
  pub State : Type 0
  pub entry_at : State → BtreeId → Bpos → Option (KeyType × BchVal)
  pub get_entry : State → BtreeId → BtreeKey → Option (BtreeKey × BchVal)
  pub insert_entry : BtreeId → BtreeKey → BchVal → ℕ → State → Bool × State
  pub trans_commit : BtreeId → BtreeKey → BchVal → State → Bool × State
  pub get_entry_at :
      (s : State) (id : BtreeId) (key k : BtreeKey) (v : BchVal)
      → get_entry s id key ≡ some (k, v)
      → entry_at s id (from_key k) ≡ some (k.key_type, v)
  pub entry_at-insert :
      (id : BtreeId) (key : BtreeKey) (v : BchVal) (seq : ℕ) (s : State) (id' : BtreeId)
      (pos : Bpos)
      → entry_at (insert_entry id key v seq s).1 id' pos ≡ (
          if (insert_entry id key v seq s).0
          then if belongs id' pos id key then some (key.key_type, v) else entry_at s id' pos
          else entry_at s id' pos)
  pub entry_at-commit :
      (id : BtreeId) (key : BtreeKey) (v : BchVal) (s : State) (id' : BtreeId) (pos : Bpos)
      → (trans_commit id key v s).0 ≡ true
      → entry_at (trans_commit id key v s).1 id' pos
        ≡ (if belongs id' pos id key then some (key.key_type, v) else entry_at s id' pos)

module _ (engine : Engine) where
  open engine use {State, get_entry, insert_entry, trans_commit}

  unfoldable pub is_noop : BtreeWriteBufferedKey → State → Bool
  is_noop wk s = elim (get_entry s wk.btree_id wk.key) [
    | none ↦ false
    | some (ek, ev) ↦
        key_type_code ek.key_type == key_type_code wk.key_type
        && wk.key.vaddr == ek.vaddr
        && wk.key.snapshot_id == ek.snapshot_id
        && ev.paddr == wk.value.paddr
        && ev.ver == wk.value.ver
  ]

  -- One round of `flush_fastpath`: whether the key is done.
  unfoldable pub attempt : BtreeWriteBufferedKey → State → Bool × State
  unfolding is_noop
  attempt wk s =
      if is_noop wk s then (true, s) else insert_entry wk.btree_id wk.key wk.value wk.journal_seq s

  module _ (keys : List BtreeWriteBufferedKey) where
    -- The references that are left for the slow path. An index past the end would panic.
    unfoldable pub flush_fastpath : List WbKeyRef → State → List WbKeyRef × State
    unfolding attempt
    flush_fastpath [] s = ([], s)
    flush_fastpath (r ∷ refs) s = elim (get_elem? keys r.idx) [
      | none ↦ ([], s)
      | some wk ↦
          let (done, s') = attempt wk s in
          let (left, s'') = flush_fastpath refs s' in (if done then left else r ∷ left, s'')
    ]

    unfoldable pub flush_slowpath : Bool → List WbKeyRef → State → Bool × State
    flush_slowpath journal [] s = (true, s)
    flush_slowpath journal (r ∷ refs) s = elim (get_elem? keys r.idx) [
      | none ↦ (false, s)
      | some wk ↦
          let (committed, s') = trans_commit wk.btree_id wk.key wk.value s in
          let skipped = flush_slowpath journal refs s in
          let after_commit = flush_slowpath journal refs s' in
          let after_insert =
            flush_slowpath journal refs
              (insert_entry wk.btree_id wk.key wk.value wk.journal_seq s).1 in
          if wk.journal_seq == 0
          then skipped
          else if journal
          then if committed then after_commit else (false, s')
          else after_insert
    ]

  module _ (sort : List WbKeyRef → List WbKeyRef) where
    -- `true` is `Ok`.
    unfoldable pub bch2_btree_write_buffer_flush_locked :
        Bool → BtreeWriteBuffer → State → Bool × BtreeWriteBuffer × State
    unfolding flush_fastpath flush_slowpath
    bch2_btree_write_buffer_flush_locked journal wb s =
        let moved = move_keys_from_inc_to_flushing wb in
        let keys = moved.flushing.keys in
        let deduped = dedup_sorted_refs keys (sort (build_sorted_index 0 keys)) in
        let (left, s') = flush_fastpath keys deduped s in
        let (okay, s'') = flush_slowpath keys journal left s' in
        if moved.flushing.nr == 0
        then (true, record moved { nr_flushes = add64 moved.nr_flushes 1 }, s)
        else if okay
        then (
          true,
          record moved {
            nr_flushes = add64 moved.nr_flushes 1;
            nr_keys_flushed = add64 moved.nr_keys_flushed moved.flushing.nr;
            flushing = record { keys = []; nr = 0 };
          },
          s'',
        )
        else (false, moved, s'')

    unfoldable pub bch2_btree_write_buffer_flush_going_ro :
        Bool → BtreeWriteBuffer → State → Bool × BtreeWriteBuffer × State
    unfolding bch2_btree_write_buffer_flush_locked
    bch2_btree_write_buffer_flush_going_ro journal wb s =
        bch2_btree_write_buffer_flush_locked journal wb s

    -- `true` is 0, `false` is -1.
    unfoldable pub bch2_btree_write_buffer_maybe_flush :
        ℕ → Bool → BtreeWriteBuffer → State → Bool × BtreeWriteBuffer × State
    unfolding bch2_btree_write_buffer_flush_locked
    bch2_btree_write_buffer_maybe_flush capacity journal wb s =
        if bch2_btree_write_buffer_must_wait capacity wb
        then bch2_btree_write_buffer_flush_locked journal wb s
        else (true, wb, s)
