-- ===== src/Recovery/Tests.antt =====
-- recovery/overlay.rs: trees given by a map, and the laws of the overlay on them.
use volmount.Common.{ℕ, ◌≡◌, refl, none, some, List, [], ◌∷◌, true, false, ◌&&◌, if◌then◌else◌}
use volmount.Btree.Bpos.{bpos_eq, bpos_le}
use volmount.Btree.Entry.{BtreeEntry, extents, normal, raw, same_tree}
use volmount.Recovery.Overlay.{
  JournalKey, JournalKeys, push, lookup_entry, find_next_entry, follows, new_keys,
}
use volmount.Recovery.Overlay.Lookup.{lookup_entry-push}
use volmount.Recovery.Overlay.Next.{In, find_next_entry-least}
use volmount.Recovery.Overlay.Drain.{Trees, Engine}
use volmount.Recovery.Overlay.Replay.{Write, PositionMap}

abbrev map_trees : Trees
map_trees = record {
  State = PositionMap;
  latest = λ t. t;
  insert = λ bt e seq t.
      ((λ bt' pos. if same_tree bt bt' && bpos_eq e.pos pos then some e else t bt' pos), true);
  flush_cache_dirty_keys = λ seq t. t;
  latest-insert = λ bt e seq t bt' pos. refl;
  latest-flush = λ seq t bt pos. refl;
}

abbrev at_offset : ℕ → ℕ → BtreeEntry
at_offset offset byte = record {
  pos = record { inode = 0; offset = offset; snapshot = 9 };
  key_type = normal;
  value = raw (byte ∷ []);
}

abbrev some_writes : List Write
some_writes =
    record { tree = extents; entry = at_offset 4 1; seq = 1 }
    ∷ record { tree = extents; entry = at_offset 8 2; seq = 2 }
    ∷ record { tree = extents; entry = at_offset 4 3; seq = 3 }
    ∷ []

abbrev in_replay : Engine map_trees
unfolding new_keys
in_replay = record {
  trees_state = λ bt pos. none;
  journal_overlay = some (record new_keys { active = true });
}

abbrev two_keys : JournalKeys
unfolding new_keys push
two_keys = push 2 extents (at_offset 8 2) (push 1 extents (at_offset 4 1) new_keys)

abbrev with_keys : Engine map_trees
with_keys = record {
  trees_state = λ bt pos. none;
  journal_overlay = some (record two_keys { active = true });
}

lookup_entry-push_example :
    lookup_entry extents (at_offset 4 0).pos (push 3 extents (at_offset 4 7) two_keys)
    ≡ some (record {
      journal_seq = 3;
      btree_type = extents;
      entry = at_offset 4 7;
      overwritten = false;
    })
lookup_entry-push_example =
    lookup_entry-push 3 extents (at_offset 4 7) two_keys extents (at_offset 4 0).pos

find_next_entry-least_example :
    ((k : JournalKey)
      → find_next_entry extents (at_offset 5 0).pos two_keys ≡ some k
      → In k two_keys.entries
        × (follows extents (at_offset 5 0).pos k ≡ true)
        × ((k' : JournalKey)
            → In k' two_keys.entries
            → follows extents (at_offset 5 0).pos k' ≡ true
            → bpos_le k.entry.pos k'.entry.pos ≡ true))
    × (find_next_entry extents (at_offset 5 0).pos two_keys ≡ none
        → (k' : JournalKey) → In k' two_keys.entries
        → follows extents (at_offset 5 0).pos k' ≡ false)
find_next_entry-least_example = find_next_entry-least extents (at_offset 5 0).pos two_keys
