-- ===== src/Btree/KeyCache/Runs.antt =====
-- btree/key_cache.rs: the count of dirty entries in every run of calls.
use volmount.Common.{ℕ, suc, Bool}
use volmount.Btree.Bpos.{Bpos}
use volmount.Btree.Entry.{BtreeEntry}
use volmount.Btree.KeyCache.{
  Pins, KeyCache, new_cache, set_journal, insert, invalidate, bch2_btree_insert_key_cached,
  request_flush, mark_clean, flush_dirty,
}

module _ (pins : Pins) where
  -- A new cache after `n` calls.
  pub data Runs : ℕ → KeyCache pins → Type 1 where
    start : Runs 0 (new_cache pins)
    sets_journal :
        {n : ℕ} {c : KeyCache pins} (j : pins.Journal)
        → Runs n c
        → Runs (suc n) (set_journal pins j c)
    inserts :
        {n : ℕ} {c : KeyCache pins} (pos : Bpos) (e : BtreeEntry)
        → Runs n c
        → Runs (suc n) (insert pins pos e c)
    invalidates :
        {n : ℕ} {c : KeyCache pins} (pos : Bpos) → Runs n c → Runs (suc n) (invalidate pins pos c)
    writes :
        {n : ℕ} {c : KeyCache pins} (pos : Bpos) (e : BtreeEntry) (seq : ℕ)
        → Runs n c
        → Runs (suc n) (bch2_btree_insert_key_cached pins pos e seq c)
    requests :
        {n : ℕ} {c : KeyCache pins} (pos : Bpos)
        → Runs n c
        → Runs (suc n) (request_flush pins pos c)
    cleans :
        {n : ℕ} {c : KeyCache pins} (pos : Bpos) → Runs n c → Runs (suc n) (mark_clean pins pos c)
    flushes :
        {n : ℕ} {c : KeyCache pins} {W : Type 0} (writer : Bpos → BtreeEntry → W → Bool × W) (w : W)
        → Runs n c
        → Runs (suc n) (flush_dirty pins writer w c).2
