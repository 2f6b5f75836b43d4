-- ===== src/Btree/CachedTree.antt =====
-- btree/btree.rs, btree/mod.rs: reads and writes of one tree through its key cache. The nodes behind it
-- are an interface: the live entry at each position.
pub mod Good
pub mod Coherent
mod Tests
use volmount.Common.{ℕ, if◌then◌else◌, Bool, true, false, Option, none, some, List, [], ◌∷◌, ◌≡◌}
use volmount.Btree.Bpos.{Bpos, bpos_eq}
use volmount.Btree.Entry.{
  BtreeEntry, BtreeKey, BchVal, KeyType, normal, deleted, whiteout, extent, from_key,
}
use volmount.Btree.KeyCache.{
  Pins, KeyCache, find, insert, invalidate, bch2_btree_insert_key_cached, collect_dirty, mark_clean,
}

-- `get_entry_inner` passes over deleted entries and whiteouts.
abbrev pub live : BtreeEntry → Option BtreeEntry
live e = elim e.key_type [ normal ↦ some e | deleted ↦ none | whiteout ↦ none ]

-- The nodes of a tree: `get_entry_inner` and `insert_entry_into_node`, whose insert may fail.
pub record Nodes : Type 1 where
  pub State : Type 0
  pub get_entry_inner : State → Bpos → Option BtreeEntry
  pub insert_entry_into_node : BtreeEntry → ℕ → State → Bool × State
  pub get_entry_pos :
      (t : State) (pos : Bpos) (e : BtreeEntry)
      → get_entry_inner t pos ≡ some e
      → (e.pos ≡ pos) × (live e ≡ some e)
  pub get-insert :
      (e : BtreeEntry) (seq : ℕ) (t : State) (pos : Bpos)
      → get_entry_inner (insert_entry_into_node e seq t).1 pos ≡ (
          if (insert_entry_into_node e seq t).0
          then if bpos_eq e.pos pos then live e else get_entry_inner t pos
          else get_entry_inner t pos)

module _ (pins : Pins) (nodes : Nodes) where
  open nodes use {State, get_entry_inner, insert_entry_into_node}

  pub record Btree : Type 0 where
    pub root : State
    pub key_cache : KeyCache pins

  unfoldable pub get_entry : Bpos → Btree → Option BtreeEntry × Btree
  get_entry pos b = elim (find pins pos b.key_cache) [
    | some e ↦ (some e, b)
    | none ↦ elim (get_entry_inner b.root pos) [
      | none ↦ (none, b)
      | some e ↦ (some e, record b { key_cache = insert pins pos e b.key_cache })
    ]
  ]

  unfoldable pub insert_entry : BtreeEntry → ℕ → Btree → Bool × Btree
  insert_entry entry journal_seq b =
      let (done, t) = insert_entry_into_node entry journal_seq b.root in
      if done
      then (true, record { root = t; key_cache = invalidate pins entry.pos b.key_cache })
      else (false, record b { root = t })

  unfoldable pub insert_entry_skip_cache : BtreeEntry → ℕ → Btree → Bool × Btree
  insert_entry_skip_cache entry journal_seq b =
      let (done, t) = insert_entry_into_node entry journal_seq b.root in
      (done, record b { root = t })

  -- `BtreeEngine::insert_entry_cached` on the tree of its type.
  unfoldable pub insert_entry_cached : BtreeKey → BchVal → ℕ → Btree → Bool × Btree
  unfolding insert_entry_skip_cache
  insert_entry_cached key value journal_seq b =
      let pos = from_key key in
      let e : BtreeEntry = record { pos = pos; key_type = normal; value = extent value } in
      let (done, b') = insert_entry_skip_cache e journal_seq b in
      if done
      then (
        true,
        record b' { key_cache = bch2_btree_insert_key_cached pins pos e journal_seq b'.key_cache },
      )
      else (false, b')

  -- The second phase of `BtreeEngine::flush_cache_dirty_keys`, on the entries of one tree.
  unfoldable pub write_back : ℕ → List (Bpos × BtreeEntry) → Btree → Btree
  unfolding insert_entry_skip_cache
  write_back journal_seq [] b = b
  write_back journal_seq ((pos, entry) ∷ l) b =
      let (done, b') = insert_entry_skip_cache entry journal_seq b in
      write_back journal_seq l
        (if done then record b' { key_cache = mark_clean pins pos b'.key_cache } else b')

  unfoldable pub flush_cache_dirty_keys : ℕ → Btree → Btree
  unfolding write_back
  flush_cache_dirty_keys journal_seq b = write_back journal_seq (collect_dirty pins b.key_cache) b
