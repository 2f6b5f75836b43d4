-- ===== src/Btree/KeyCache/Count.antt =====
-- btree/key_cache.rs: the count of dirty entries over each call.
use volmount.Common.{
  ℕ, suc, ◌+◌, ◌^◌, ◌<◌, ◌≤◌, ◌≡◌, refl, arith, if◌then◌else◌, Bool, true, false, Bool-cases, inl,
  inr, Option, none, some, Option-cases, List, [], ◌∷◌, length,
}
use volmount.Btree.Bpos.{Bpos}
use volmount.Btree.Entry.{BtreeEntry}
use volmount.Btree.KeyCache.{
  Pins, CachedEntry, KeyCache, slot_at, update, new_entry, clean_slot, insert, invalidate,
  bch2_btree_insert_key_cached, request_flush, mark_clean, flush_list,
}
use volmount.Btree.KeyCache.Slots.{Distinct, sum_of, sum_of-update, update-Distinct}

abbrev pub weight : (pins : Pins) → CachedEntry pins → ℕ
weight pins e = if e.dirty then 1 else 0

module _ (pins : Pins) where
  abbrev pub nr_slots : List (Bpos × CachedEntry pins) → ℕ
  nr_slots m = length m

  abbrev pub dirty_slots : List (Bpos × CachedEntry pins) → ℕ
  dirty_slots m = sum_of pins (weight pins) m

  dirty_slots-le : (m : List (Bpos × CachedEntry pins)) → dirty_slots m ≤ length m
  dirty_slots-le [] = omega arith
  dirty_slots-le ((p, e) ∷ m) = ground (arith, dirty_slots-le m)

  length-update :
      (pos : Bpos) (e : CachedEntry pins) (m : List (Bpos × CachedEntry pins))
      → length (update pins pos e m) ≡ length m
  length-update pos e [] = refl
  length-update pos e ((p, x) ∷ m) = omega (arith, length-update pos e m)

  -- The count of dirty slots is right, each position has one slot, and there are at most `n`.
  pub record IsCounted (n : ℕ) (c : KeyCache pins) : Type 0 where
    pub distinct : Distinct pins c.cache
    pub counted : c.nr_dirty ≡ dirty_slots c.cache
    pub bounded : length c.cache ≤ n

  replaced :
      (n : ℕ) (pos : Bpos) (e e' : CachedEntry pins) (c : KeyCache pins) (nr keys : ℕ)
      (j : Option pins.Journal)
      → slot_at pins pos c.cache ≡ some e
      → IsCounted n c
      → nr + weight pins e ≡ c.nr_dirty + weight pins e'
      → IsCounted n (record {
        cache = update pins pos e' c.cache;
        nr_dirty = nr;
        nr_keys = keys;
        journal = j;
      })
  replaced n pos e e' c nr keys j at k balance = record {
    distinct = update-Distinct pins pos e' c.cache k.distinct;
    counted = omega (
      arith,
      balance,
      k.counted,
      sum_of-update pins (weight pins) pos e' c.cache e k.distinct at,
    );
    bounded = omega (arith, length-update pos e' c.cache, k.bounded);
  }

  weight-le :
      (m : List (Bpos × CachedEntry pins)) (pos : Bpos) (e : CachedEntry pins)
      → slot_at pins pos m ≡ some e
      → weight pins e ≤ dirty_slots m
  weight-le [] pos e h = absurd (cc)
  weight-le ((p, x) ∷ m) pos e h = ground (arith, weight-le m pos e)

  clean_slot-IsCounted :
      (n : ℕ) (pos : Bpos) (e : CachedEntry pins) (lock : BtreeEntry) (valid : Bool)
      (c : KeyCache pins)
      → n < 2 ^ 64
      → slot_at pins pos c.cache ≡ some e
      → IsCounted n c
      → IsCounted n (clean_slot pins pos e lock valid c)
  unfolding clean_slot
  clean_slot-IsCounted n pos e lock valid c lt at k =
      replaced n pos e _ c _ c.nr_keys _ at k
        (ground (arith, k.counted, k.bounded, dirty_slots-le c.cache, weight-le c.cache pos e at))

  pushed :
      (n : ℕ) (pos : Bpos) (e : CachedEntry pins) (c : KeyCache pins) (nr keys : ℕ)
      (j : Option pins.Journal)
      → slot_at pins pos c.cache ≡ none
      → IsCounted n c
      → nr ≡ c.nr_dirty + weight pins e
      → IsCounted
          (suc n)
          (record { cache = (pos, e) ∷ c.cache; nr_dirty = nr; nr_keys = keys; journal = j })
  pushed n pos e c nr keys j absent k balance = record {
    distinct = (absent, k.distinct);
    counted = omega (arith, balance, k.counted);
    bounded = omega (arith, k.bounded);
  }

  pub more-IsCounted : (n : ℕ) (c : KeyCache pins) → IsCounted n c → IsCounted (suc n) c
  more-IsCounted n c k = record {
    distinct = k.distinct;
    counted = k.counted;
    bounded = omega (arith, k.bounded);
  }

  pub insert-IsCounted :
      (n : ℕ) (pos : Bpos) (entry : BtreeEntry) (c : KeyCache pins)
      → n < 2 ^ 64
      → IsCounted n c
      → IsCounted (suc n) (insert pins pos entry c)
  unfolding insert
  insert-IsCounted n pos entry c lt k = elim (Option-cases (slot_at pins pos c.cache)) [
    | inl absent ↦
        rw (absent, insert)
          (pushed n pos (new_entry pins entry) c _ _ c.journal absent k (omega arith))
    | inr (e, at) ↦
        rw (at, insert) (more-IsCounted n _ (clean_slot-IsCounted n pos e entry true c lt at k))
  ]

  pub invalidate-IsCounted :
      (n : ℕ) (pos : Bpos) (c : KeyCache pins)
      → n < 2 ^ 64
      → IsCounted n c
      → IsCounted n (invalidate pins pos c)
  unfolding invalidate
  invalidate-IsCounted n pos c lt k = elim (Option-cases (slot_at pins pos c.cache)) [
    | inl absent ↦ rw (absent, invalidate) k
    | inr (e, at) ↦ rw (at, invalidate) (clean_slot-IsCounted n pos e e.lock false c lt at k)
  ]

  pub mark_clean-IsCounted :
      (n : ℕ) (pos : Bpos) (c : KeyCache pins)
      → n < 2 ^ 64
      → IsCounted n c
      → IsCounted n (mark_clean pins pos c)
  unfolding mark_clean
  mark_clean-IsCounted n pos c lt k = elim (Option-cases (slot_at pins pos c.cache)) [
    | inl absent ↦ rw (absent, mark_clean) k
    | inr (e, at) ↦ rw (at, mark_clean) (clean_slot-IsCounted n pos e e.lock e.valid c lt at k)
  ]

  pub request_flush-IsCounted :
      (n : ℕ) (pos : Bpos) (c : KeyCache pins)
      → IsCounted n c
      → IsCounted n (request_flush pins pos c)
  unfolding request_flush
  request_flush-IsCounted n pos c k = elim (Option-cases (slot_at pins pos c.cache)) [
    | inl absent ↦ rw (absent, request_flush) k
    | inr (e, at) ↦ rw (at, request_flush) (replaced n pos e _ c _ c.nr_keys _ at k refl)
  ]

  pub insert_key_cached-IsCounted :
      (n : ℕ) (pos : Bpos) (entry : BtreeEntry) (seq : ℕ) (c : KeyCache pins)
      → suc n < 2 ^ 64
      → IsCounted n c
      → IsCounted (suc n) (bch2_btree_insert_key_cached pins pos entry seq c)
  unfolding bch2_btree_insert_key_cached
  insert_key_cached-IsCounted n pos entry seq c lt k =
      elim (Option-cases (slot_at pins pos c.cache)) [
        | inl absent ↦
            rw (absent, bch2_btree_insert_key_cached)
              (pushed n pos _ c _ c.nr_keys _ absent k
                (ground (arith, k.counted, k.bounded, dirty_slots-le c.cache)))
        | inr (e, at) ↦
            rw (at, bch2_btree_insert_key_cached)
              (more-IsCounted n _ (
                replaced n pos e _ c _ c.nr_keys _ at k
                  (ground (arith, k.counted, k.bounded, dirty_slots-le c.cache))))
      ]

  pub flush_list-IsCounted :
      {W : Type 0} (writer : Bpos → BtreeEntry → W → Bool × W) (n : ℕ)
      (l : List (Bpos × BtreeEntry)) (k : ℕ) (w : W) (c : KeyCache pins)
      → n < 2 ^ 64
      → IsCounted n c
      → IsCounted n (flush_list pins writer l k w c).2
  unfolding flush_list
  flush_list-IsCounted writer n [] k w c lt i = i
  flush_list-IsCounted writer n ((pos, entry) ∷ l) k w c lt i =
      elim (Bool-cases (writer pos entry w).0) [
        | inl yes_done ↦
            rw (yes_done, flush_list)
              (flush_list-IsCounted writer n l (k + 1) _ _ lt (mark_clean-IsCounted n pos c lt i))
        | inr not_done ↦ rw (not_done, flush_list) (flush_list-IsCounted writer n l k _ _ lt i)
      ]
