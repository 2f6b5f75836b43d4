-- ===== src/Btree/WriteBuffer/Tests.antt =====
-- btree/write_buffer.rs: a flush of two writes at one place into an engine that is a list of writes.
use volmount.Common.{
  ℕ, if◌then◌else◌, Bool, true, false, inl, inr, Option, none, some, Option-cases, List, [], ◌∷◌,
  ◌≡◌, refl, arith, Ordering,
}
use volmount.Btree.Bpos.{Bpos, bpos_eq}
use volmount.Btree.Entry.{BtreeKey, BchVal, KeyType, normal, BtreeId, extents, from_key}
use volmount.Btree.WriteBuffer.{
  BtreeWriteBuffer, btree_write_buffer_new, bch2_journal_key_to_wb, accounting,
  move_keys_from_inc_to_flushing,
}
use volmount.Btree.WriteBuffer.Pipeline.{
  WbKeyRef, place_cmp, belongs, Engine, bch2_btree_write_buffer_flush_locked, flush_fastpath,
  flush_slowpath, dedup_sorted_refs, dedup_run, build_sorted_index, attempt, is_noop,
}

abbrev is_gt : Ordering → Bool
is_gt o = elim o [ Ordering.gt ↦ true | _ ↦ false ]

abbrev insert : WbKeyRef → List WbKeyRef → List WbKeyRef
insert r [] = r ∷ []
insert r (x ∷ xs) = if is_gt (place_cmp r x) then x ∷ insert r xs else r ∷ x ∷ xs

abbrev insertion_sort : List WbKeyRef → List WbKeyRef
insertion_sort [] = []
insertion_sort (r ∷ l) = insert r (insertion_sort l)

abbrev Writes : Type 0
Writes = List (BtreeId × BtreeKey × BchVal)

abbrev last_at : Writes → BtreeId → Bpos → Option (KeyType × BchVal)
last_at [] id pos = none
last_at ((i, key, v) ∷ s) id pos =
    if belongs id pos i key then some (key.key_type, v) else last_at s id pos

abbrev read : Writes → BtreeId → BtreeKey → Option (BtreeKey × BchVal)
read s id key = elim (last_at s id (from_key key)) [
  | none ↦ none
  | some (t, v) ↦ some (record key { key_type = t }, v)
]

read-last_at :
    (s : Writes) (id : BtreeId) (key k : BtreeKey) (v : BchVal)
    → read s id key ≡ some (k, v)
    → last_at s id (from_key k) ≡ some (k.key_type, v)
unfolding from_key
read-last_at s id key k v h = elim (Option-cases (last_at s id (from_key key))) [
  | inl absent ↦ absurd (ground arith)
  | inr ((t, w), there) ↦
      let (k_is, v_is) : (k ≡ record key { key_type = t }) × (v ≡ w) =
        (ground arith, ground arith) in
      rw (k_is, v_is) there
]

abbrev write_list : Engine
write_list = record {
  State = Writes;
  entry_at = last_at;
  get_entry = read;
  insert_entry = λ id key v seq s. (true, (id, key, v) ∷ s);
  trans_commit = λ id key v s. (true, (id, key, v) ∷ s);
  get_entry_at = read-last_at;
  entry_at-insert = λ id key v seq s id' pos. refl;
  entry_at-commit = λ id key v s id' pos h. refl;
}

abbrev key_at : ℕ → BtreeKey
key_at vaddr = record { vaddr = vaddr; snapshot_id = 1; key_type = normal; version = 0 }

abbrev two_writes : BtreeWriteBuffer
two_writes =
    bch2_journal_key_to_wb extents (key_at 7) (record { paddr = 20; ver = 1 }) 5
      (bch2_journal_key_to_wb extents (key_at 7) (record { paddr = 10; ver = 1 }) 4
        (btree_write_buffer_new accounting))

flush_test :
    last_at
      (bch2_btree_write_buffer_flush_locked write_list insertion_sort true two_writes []).2
      extents
      (from_key (key_at 7))
    ≡ some (normal, record { paddr = 20; ver = 1 })
unfolding bch2_btree_write_buffer_flush_locked flush_fastpath flush_slowpath dedup_sorted_refs
    dedup_run build_sorted_index attempt is_noop move_keys_from_inc_to_flushing
    bch2_journal_key_to_wb from_key bpos_eq
flush_test = refl
