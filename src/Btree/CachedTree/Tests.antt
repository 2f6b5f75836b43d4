-- ===== src/Btree/CachedTree/Tests.antt =====
-- btree/btree.rs, btree/key_cache.rs: a tree that is a list of entries, the newest first, with a cache.
use mathlib.Core.Path.{subst}
use volmount.Common.{
  ℕ, ◌==◌, ltb, ◌||◌, if◌then◌else◌, not, true, Bool-cases, inl, inr, Option, none, some, List, [],
  ◌∷◌, ◌≡◌, refl, arith, ap, ◌∙◌, sym,
}
use volmount.Btree.Bpos.{Bpos, bpos_eq}
use volmount.Btree.Bpos.Order.{bpos_eq_iff}
use volmount.Btree.Entry.{BtreeEntry, BtreeKey, BchVal, normal, extent, from_key}
use volmount.Btree.KeyCache.{
  Pins, KeyCache, new_cache, collect_dirty, bch2_btree_insert_key_cached, set_journal,
  drop_journal_pin, clean_slot, mark_clean, pin_entry, dirty_of,
}
use volmount.Btree.KeyCache.Runs.{Runs}
use volmount.Btree.CachedTree.{
  Nodes, live, Btree, insert_entry_cached, insert_entry_skip_cache, flush_cache_dirty_keys,
  write_back,
}

-- A pin is the number that it holds, and the journal lists the numbers that were pinned.
abbrev plain_pins : Pins
plain_pins = record {
  Journal = List ℕ;
  JournalEntryPin = ℕ;
  new_pin = 0;
  is_active = λ p. not (p == 0);
  bch2_journal_pin_add = λ seq p j. if p == 0 || ltb seq p then (seq, seq ∷ j) else (p, j);
  bch2_journal_pin_drop = λ p j. (0, j);
}

abbrev newest : List BtreeEntry → Bpos → Option BtreeEntry
newest [] pos = none
newest (e ∷ t) pos = if bpos_eq e.pos pos then live e else newest t pos

live-some : (e x : BtreeEntry) → live e ≡ some x → (x ≡ e) × (live e ≡ some e)
live-some e x h = ground arith

newest-pos :
    (t : List BtreeEntry) (pos : Bpos) (e : BtreeEntry)
    → newest t pos ≡ some e
    → (e.pos ≡ pos) × (live e ≡ some e)
newest-pos [] pos e h = absurd (cc)
newest-pos (x ∷ t) pos e h = elim (Bool-cases (bpos_eq x.pos pos)) [
  | inl same ↦
      let (e_is, alive) = live-some x e (ground arith) in
      (
        ap (λ y. y.pos) e_is ∙ (bpos_eq_iff x.pos pos).0 same,
        subst (λ y. live y ≡ some y) (sym e_is) alive,
      )
  | inr differ ↦ newest-pos t pos e (ground arith)
]

abbrev list_nodes : Nodes
list_nodes = record {
  State = List BtreeEntry;
  get_entry_inner = newest;
  insert_entry_into_node = λ e seq t. (true, e ∷ t);
  get_entry_pos = newest-pos;
  get-insert = λ e seq t pos. refl;
}

abbrev at_seven : BtreeKey
at_seven = record { vaddr = 7; snapshot_id = 1; key_type = normal; version = 0 }

abbrev value_nine : BchVal
value_nine = record { paddr = 9; ver = 1 }

abbrev written_back : Btree plain_pins list_nodes
written_back =
    flush_cache_dirty_keys plain_pins list_nodes 5
      (insert_entry_cached plain_pins list_nodes at_seven value_nine 4
        (record { root = []; key_cache = new_cache plain_pins })).1

flush_test : collect_dirty plain_pins written_back.key_cache ≡ []
unfolding collect_dirty flush_cache_dirty_keys write_back insert_entry_skip_cache
    insert_entry_cached bch2_btree_insert_key_cached mark_clean clean_slot drop_journal_pin
    pin_entry dirty_of from_key bpos_eq
flush_test = refl

abbrev nine_at_seven : BtreeEntry
nine_at_seven = record { pos = from_key at_seven; key_type = normal; value = extent value_nine }

abbrev empty_tree : Btree plain_pins list_nodes
empty_tree = record { root = []; key_cache = new_cache plain_pins }

abbrev one_dirty : KeyCache plain_pins
one_dirty =
    bch2_btree_insert_key_cached plain_pins (from_key at_seven) nine_at_seven 4
      (set_journal plain_pins [] (new_cache plain_pins))
