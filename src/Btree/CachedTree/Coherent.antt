-- ===== src/Btree/CachedTree/Coherent.antt =====
-- btree/btree.rs, btree/mod.rs: reads and writes of a tree as if there were no key cache.
use volmount.Common.{ℕ, if◌then◌else◌, Bool, Option, ◌≡◌}
use volmount.Btree.Bpos.{Bpos, bpos_eq}
use volmount.Btree.Entry.{BtreeEntry, BtreeKey, BchVal, normal, extent, from_key}
use volmount.Btree.KeyCache.{Pins, new_cache, invalidate, request_flush}
use volmount.Btree.CachedTree.{
  Nodes, live, Btree, get_entry, insert_entry, insert_entry_cached, flush_cache_dirty_keys,
}
use volmount.Btree.CachedTree.Good.{AllGood}

module _ (pins : Pins) (nodes : Nodes) where
  open nodes use {State, get_entry_inner, insert_entry_into_node, get_entry_pos, get-insert}

  -- The map after a write that was done or refused.
  abbrev pub written : Bool → BtreeEntry → (Bpos → Option BtreeEntry) → Bpos → Option BtreeEntry
  written done e f pos = if done then if bpos_eq e.pos pos then live e else f pos else f pos

  -- The nodes hold the map, and the cache agrees with it.
  pub record IsCoherent (f : Bpos → Option BtreeEntry) (b : Btree pins nodes) : Type 0 where
    pub stored : (pos : Bpos) → get_entry_inner b.root pos ≡ f pos
    pub cached : AllGood pins f b.key_cache.cache

  -- A tree that is opened with an empty cache, and then used; the map is changed by the writes that
  -- were done and by nothing else.
  pub data Run : (Bpos → Option BtreeEntry) → Btree pins nodes → Type 0 where
    opened : (t : State) → Run (get_entry_inner t) (record { root = t; key_cache = new_cache pins })
    reads :
        {f : Bpos → Option BtreeEntry} {b : Btree pins nodes} (pos : Bpos)
        → Run f b
        → Run f (get_entry pins nodes pos b).1
    inserts :
        {f : Bpos → Option BtreeEntry} {b : Btree pins nodes} (e : BtreeEntry) (seq : ℕ)
        → Run f b
        → Run (written (insert_entry pins nodes e seq b).0 e f) (insert_entry pins nodes e seq b).1
    caches :
        {f : Bpos → Option BtreeEntry} {b : Btree pins nodes} (key : BtreeKey) (value : BchVal)
        (seq : ℕ)
        → Run f b
        → Run
            (written
              (insert_entry_cached pins nodes key value seq b).0
              (record { pos = from_key key; key_type = normal; value = extent value })
              f)
            (insert_entry_cached pins nodes key value seq b).1
    flushes :
        {f : Bpos → Option BtreeEntry} {b : Btree pins nodes} (seq : ℕ)
        → Run f b
        → Run f (flush_cache_dirty_keys pins nodes seq b)
    requests :
        {f : Bpos → Option BtreeEntry} {b : Btree pins nodes} (pos : Bpos)
        → Run f b
        → Run f (record b { key_cache = request_flush pins pos b.key_cache })
    drops :
        {f : Bpos → Option BtreeEntry} {b : Btree pins nodes} (pos : Bpos)
        → Run f b
        → Run f (record b { key_cache = invalidate pins pos b.key_cache })
