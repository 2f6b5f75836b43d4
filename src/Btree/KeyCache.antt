-- ===== src/Btree/KeyCache.antt =====
-- btree/key_cache.rs: the key cache of a tree, a hash table of slots by position. The table is a list
-- in any order. A slot's lock and its atomics are fields, and each call is one step.
pub mod Slots
pub mod Count
pub mod Runs
use volmount.Common.{
  ℕ, ◌+◌, ◌-◌, ◌*◌, ◌/◌, ◌==◌, ltb, leb, if◌then◌else◌, Bool, true, false, not, Option, none, some,
  List, [], ◌∷◌, length, add64, sub64, u64,
}
use volmount.Btree.Bpos.{Bpos, bpos_eq}
use volmount.Btree.Entry.{BtreeEntry}

-- The calls of the journal on the pin that a slot embeds (journal/reclaim.rs).
pub record Pins : Type 1 where
  pub Journal : Type 0
  pub JournalEntryPin : Type 0
  pub new_pin : JournalEntryPin
  pub is_active : JournalEntryPin → Bool
  pub bch2_journal_pin_add : ℕ → JournalEntryPin → Journal → JournalEntryPin × Journal
  pub bch2_journal_pin_drop : JournalEntryPin → Journal → JournalEntryPin × Journal

module _ (pins : Pins) where
  open pins use {
    Journal, JournalEntryPin, new_pin, is_active, bch2_journal_pin_add, bch2_journal_pin_drop,
  }

  pub record CachedEntry : Type 0 where
    pub lock : BtreeEntry
    pub valid : Bool
    pub dirty : Bool
    pub pin : JournalEntryPin
    pub flush_pending : Bool

  pub record KeyCache : Type 0 where
    pub cache : List (Bpos × CachedEntry)
    pub nr_dirty : ℕ
    pub nr_keys : ℕ
    pub journal : Option Journal

  -- `HashMap::get`, and a write through the reference that it gives.
  abbrev pub slot_at : Bpos → List (Bpos × CachedEntry) → Option CachedEntry
  slot_at pos [] = none
  slot_at pos ((p, e) ∷ m) = if bpos_eq p pos then some e else slot_at pos m

  abbrev pub update : Bpos → CachedEntry → List (Bpos × CachedEntry) → List (Bpos × CachedEntry)
  update pos e' [] = []
  update pos e' ((p, e) ∷ m) = (p, if bpos_eq p pos then e' else e) ∷ update pos e' m

  abbrev pub new_entry : BtreeEntry → CachedEntry
  new_entry entry = record {
    lock = entry;
    valid = true;
    dirty = false;
    pin = new_pin;
    flush_pending = false;
  }

  abbrev pub new_cache : KeyCache
  new_cache = record { cache = []; nr_dirty = 0; nr_keys = 0; journal = none }

  -- `OnceLock::set`: only the first call counts.
  unfoldable pub set_journal : Journal → KeyCache → KeyCache
  set_journal j c = elim c.journal [ none ↦ record c { journal = some j } | some _ ↦ c ]

  unfoldable pub find : Bpos → KeyCache → Option BtreeEntry
  find pos c = elim (slot_at pos c.cache) [
    | none ↦ none
    | some e ↦ if e.valid then some e.lock else none
  ]

  -- The pin and the journal after the call.
  unfoldable pub drop_journal_pin : CachedEntry → Option Journal → JournalEntryPin × Option Journal
  drop_journal_pin e j = if not (is_active e.pin) then (e.pin, j) else elim j [
    | none ↦ (e.pin, none)
    | some j ↦ let (pin, j') = bch2_journal_pin_drop e.pin j in (pin, some j')
  ]

  -- `dirty.swap(false)` with what follows if it was dirty, `flush_pending.store(false)`, and the stores
  -- of the content and of `valid`.
  unfoldable pub clean_slot : Bpos → CachedEntry → BtreeEntry → Bool → KeyCache → KeyCache
  unfolding drop_journal_pin
  clean_slot pos e lock valid c =
      let (pin, j) = drop_journal_pin e c.journal in
      record c {
        cache =
            update pos
              (record {
                lock = lock;
                valid = valid;
                dirty = false;
                pin = if e.dirty then pin else e.pin;
                flush_pending = false;
              })
              c.cache;
        nr_dirty = if e.dirty then sub64 c.nr_dirty 1 else c.nr_dirty;
        journal = if e.dirty then j else c.journal;
      }

  unfoldable pub insert : Bpos → BtreeEntry → KeyCache → KeyCache
  unfolding clean_slot
  insert pos entry c = elim (slot_at pos c.cache) [
    | some e ↦ clean_slot pos e entry true c
    | none ↦ record c { cache = (pos, new_entry entry) ∷ c.cache; nr_keys = add64 c.nr_keys 1 }
  ]

  unfoldable pub invalidate : Bpos → KeyCache → KeyCache
  unfolding clean_slot
  invalidate pos c = elim (slot_at pos c.cache) [
    | some e ↦ clean_slot pos e e.lock false c
    | none ↦ c
  ]

  unfoldable pub bch2_btree_key_cache_find : Bpos → KeyCache → Option BtreeEntry
  unfolding find
  bch2_btree_key_cache_find pos c = find pos c

  unfoldable pub bch2_btree_key_cache_drop : Bpos → KeyCache → KeyCache
  unfolding invalidate
  bch2_btree_key_cache_drop pos c = invalidate pos c

  unfoldable pub pin_entry : JournalEntryPin → ℕ → Option Journal → JournalEntryPin × Option Journal
  pin_entry pin journal_seq j = if journal_seq == 0 then (pin, j) else elim j [
    | none ↦ (pin, none)
    | some j ↦ let (pin', j') = bch2_journal_pin_add journal_seq pin j in (pin', some j')
  ]

  unfoldable pub bch2_btree_insert_key_cached : Bpos → BtreeEntry → ℕ → KeyCache → KeyCache
  unfolding pin_entry
  bch2_btree_insert_key_cached pos entry journal_seq c = elim (slot_at pos c.cache) [
    | some e ↦
        let (pin, j) = pin_entry e.pin journal_seq c.journal in
        record c {
          cache =
              update pos
                (record {
                  lock = entry;
                  valid = true;
                  dirty = true;
                  pin = pin;
                  flush_pending = false;
                })
                c.cache;
          nr_dirty = if e.dirty then c.nr_dirty else add64 c.nr_dirty 1;
          journal = j;
        }
    | none ↦
        let (pin, j) = pin_entry new_pin journal_seq c.journal in
        record c {
          cache =
              (
                pos,
                record {
                  lock = entry;
                  valid = true;
                  dirty = true;
                  pin = pin;
                  flush_pending = false;
                },
              )
              ∷ c.cache;
          nr_dirty = add64 c.nr_dirty 1;
          journal = j;
        }
  ]

  -- The flush callback that `pin_entry` gives to the journal.
  unfoldable pub request_flush : Bpos → KeyCache → KeyCache
  request_flush pos c = elim (slot_at pos c.cache) [
    | none ↦ c
    | some e ↦ record c { cache = update pos (record e { flush_pending = true }) c.cache }
  ]

  unfoldable pub dirty_of : List (Bpos × CachedEntry) → List (Bpos × BtreeEntry)
  dirty_of [] = []
  dirty_of ((pos, e) ∷ m) = let rest = dirty_of m in if e.dirty then (pos, e.lock) ∷ rest else rest

  unfoldable pub collect_dirty : KeyCache → List (Bpos × BtreeEntry)
  unfolding dirty_of
  collect_dirty c = dirty_of c.cache

  unfoldable pub mark_clean : Bpos → KeyCache → KeyCache
  unfolding clean_slot
  mark_clean pos c = elim (slot_at pos c.cache) [
    | some e ↦ clean_slot pos e e.lock e.valid c
    | none ↦ c
  ]

  -- The `for` of `flush_dirty`; the writer has a state of its own.
  module _ {W : Type 0} (writer : Bpos → BtreeEntry → W → Bool × W) where
    unfoldable pub flush_list : List (Bpos × BtreeEntry) → ℕ → W → KeyCache → ℕ × W × KeyCache
    unfolding mark_clean
    flush_list [] successes w c = (successes, w, c)
    flush_list ((pos, entry) ∷ rest) successes w c =
        let (done, w') = writer pos entry w in
        flush_list rest (if done then successes + 1 else successes) w'
          (if done then mark_clean pos c else c)

    unfoldable pub flush_dirty : W → KeyCache → ℕ × W × KeyCache
    unfolding flush_list collect_dirty
    flush_dirty w c = flush_list (collect_dirty c) 0 w c

    unfoldable pub bch2_btree_key_cache_flush_going_ro : W → KeyCache → Bool × W × KeyCache
    unfolding flush_dirty
    bch2_btree_key_cache_flush_going_ro w c =
        let (successes, w', c') = flush_dirty w c in (ltb 0 successes, w', c')

  -- `usize::saturating_sub`
  unfoldable pub bch2_nr_btree_keys_need_flush : KeyCache → ℕ
  bch2_nr_btree_keys_need_flush c = c.nr_dirty - (1024 + c.nr_keys / 2)

  -- For counts below 2^61 the signed difference is positive just in this case.
  unfoldable pub bch2_btree_key_cache_must_wait : KeyCache → Bool
  bch2_btree_key_cache_must_wait c = ltb (4096 + c.nr_keys * 3 / 4) c.nr_dirty

  unfoldable pub bch2_btree_key_cache_wait_done : KeyCache → Bool
  bch2_btree_key_cache_wait_done c = leb c.nr_dirty (2048 + c.nr_keys * 5 / 8)

  -- The loop of `drop_all_journal_pins`: the pins that are dropped, in the journal.
  unfoldable pub drop_pins :
      List (Bpos × CachedEntry) → Journal → List (Bpos × CachedEntry) × Journal
  drop_pins [] j = ([], j)
  drop_pins ((pos, e) ∷ m) j =
      let (pin, j') = bch2_journal_pin_drop e.pin j in
      let (e', j'') : CachedEntry × Journal =
        if is_active e.pin then (record e { pin = pin }, j') else (e, j) in
      let (m', j''') = drop_pins m j'' in ((pos, e') ∷ m', j''')

  unfoldable pub drop_all_journal_pins : KeyCache → KeyCache
  unfolding drop_pins
  drop_all_journal_pins c = elim c.journal [
    | none ↦ c
    | some j ↦ let (m, j') = drop_pins c.cache j in record c { cache = m; journal = some j' }
  ]

  unfoldable pub bch2_fs_btree_key_cache_exit : KeyCache → KeyCache
  unfolding drop_all_journal_pins
  bch2_fs_btree_key_cache_exit c = record (drop_all_journal_pins c) { cache = []; nr_keys = 0 }
