-- ===== src/Btree/CachedTree/Good.antt =====
-- btree/key_cache.rs: slots that agree with a map from positions to entries.
use mathlib.Core.Path.{subst}
use volmount.Common.{
  ℕ, Bool, true, false, Bool-cases, inl, inr, Option, none, some, Option-cases, List, [], ◌∷◌, ◌≡◌,
  refl, arith, ◌∙◌, sym, All,
}
use volmount.Btree.Bpos.{Bpos, bpos_eq}
use volmount.Btree.Bpos.Order.{bpos_eq_iff}
use volmount.Btree.Entry.{BtreeEntry}
use volmount.Btree.KeyCache.{
  Pins, CachedEntry, KeyCache, slot_at, update, find, clean_slot, insert, invalidate,
  bch2_btree_insert_key_cached, request_flush, dirty_of, mark_clean,
}
use volmount.Btree.KeyCache.Slots.{bpos_eq_sym}

module _ (pins : Pins) where
  abbrev Table : Type 0
  Table = List (Bpos × CachedEntry pins)

  -- A valid or dirty slot holds what the map `f` has at its position.
  abbrev pub IsGood : (Bpos → Option BtreeEntry) → Bpos → CachedEntry pins → Type 0
  IsGood f pos e = (e.valid ≡ true → f pos ≡ some e.lock) × (e.dirty ≡ true → f pos ≡ some e.lock)

  abbrev pub AllGood : (Bpos → Option BtreeEntry) → Table → Type 0
  AllGood f [] = Unit
  AllGood f ((p, e) ∷ m) = IsGood f p e × AllGood f m

  first_hit :
      (p pos : Bpos) (x e : CachedEntry pins) (m : Table)
      → bpos_eq p pos ≡ true
      → slot_at pins pos ((p, x) ∷ m) ≡ some e
      → x ≡ e
  first_hit p pos x e m same h = ground arith

  first_miss :
      (p pos : Bpos) (x : CachedEntry pins) (m : Table)
      → slot_at pins pos ((p, x) ∷ m) ≡ none
      → bpos_eq p pos ≡ false
  first_miss p pos x m h = ground arith

  pub IsGood-frame :
      (f g : Bpos → Option BtreeEntry) (p : Bpos) (e : CachedEntry pins)
      → g p ≡ f p
      → IsGood f p e
      → IsGood g p e
  IsGood-frame f g p e same (v, d) = (λ k. same ∙ v k, λ k. same ∙ d k)

  pub AllGood-at :
      (f : Bpos → Option BtreeEntry) (pos : Bpos) (m : Table) (e : CachedEntry pins)
      → AllGood f m
      → slot_at pins pos m ≡ some e
      → IsGood f pos e
  AllGood-at f pos [] e g h = absurd (cc)
  AllGood-at f pos ((p, x) ∷ m) e (g, gs) h = elim (Bool-cases (bpos_eq p pos)) [
    | inl same ↦
        subst (λ q. IsGood f q e) ((bpos_eq_iff p pos).0 same)
          (subst (IsGood f p) (first_hit p pos x e m same h) g)
    | inr differ ↦ AllGood-at f pos m e gs (ground arith)
  ]

  -- A write of a slot, while the map changes at most there.
  pub AllGood-update :
      (f g : Bpos → Option BtreeEntry) (pos : Bpos) (e : CachedEntry pins) (m : Table)
      → ((q : Bpos) → bpos_eq pos q ≡ false → g q ≡ f q)
      → IsGood g pos e
      → AllGood f m
      → AllGood g (update pins pos e m)
  AllGood-update f g pos e [] frame good h = tt
  AllGood-update f g pos e ((p, x) ∷ m) frame good (h, hs) = elim (Bool-cases (bpos_eq p pos)) [
    | inl same ↦ rw same (
      subst (λ q. IsGood g q e) (sym ((bpos_eq_iff p pos).0 same)) good,
      AllGood-update f g pos e m frame good hs,
    )
    | inr differ ↦ rw differ (
      IsGood-frame f g p x (frame p (bpos_eq_sym pos p ∙ differ)) h,
      AllGood-update f g pos e m frame good hs,
    )
  ]

  pub AllGood-frame :
      (f g : Bpos → Option BtreeEntry) (pos : Bpos) (m : Table)
      → ((q : Bpos) → bpos_eq pos q ≡ false → g q ≡ f q)
      → slot_at pins pos m ≡ none
      → AllGood f m
      → AllGood g m
  AllGood-frame f g pos [] frame absent h = tt
  AllGood-frame f g pos ((p, x) ∷ m) frame absent (h, hs) = (
    IsGood-frame f g p x (frame p (bpos_eq_sym pos p ∙ first_miss p pos x m absent)) h,
    AllGood-frame f g pos m frame (ground arith) hs,
  )

  clean_slot-AllGood :
      (f g : Bpos → Option BtreeEntry) (pos : Bpos) (e : CachedEntry pins) (lock : BtreeEntry)
      (valid : Bool) (c : KeyCache pins)
      → ((q : Bpos) → bpos_eq pos q ≡ false → g q ≡ f q)
      → (valid ≡ true → g pos ≡ some lock)
      → AllGood f c.cache
      → AllGood g (clean_slot pins pos e lock valid c).cache
  unfolding clean_slot
  clean_slot-AllGood f g pos e lock valid c frame holds h =
      AllGood-update f g pos _ c.cache frame (holds, λ d. absurd (cc)) h

  pub insert-AllGood :
      (f : Bpos → Option BtreeEntry) (pos : Bpos) (entry : BtreeEntry) (c : KeyCache pins)
      → f pos ≡ some entry
      → AllGood f c.cache
      → AllGood f (insert pins pos entry c).cache
  unfolding insert
  insert-AllGood f pos entry c holds h = elim (Option-cases (slot_at pins pos c.cache)) [
    | inl absent ↦ rw (absent, insert) ((λ _. holds, λ d. absurd (cc)), h)
    | inr (e, at) ↦
        rw (at, insert) (clean_slot-AllGood f f pos e entry true c (λ q _. refl) (λ _. holds) h)
  ]

  pub invalidate-AllGood :
      (f g : Bpos → Option BtreeEntry) (pos : Bpos) (c : KeyCache pins)
      → ((q : Bpos) → bpos_eq pos q ≡ false → g q ≡ f q)
      → AllGood f c.cache
      → AllGood g (invalidate pins pos c).cache
  unfolding invalidate
  invalidate-AllGood f g pos c frame h = elim (Option-cases (slot_at pins pos c.cache)) [
    | inl absent ↦ rw (absent, invalidate) (AllGood-frame f g pos c.cache frame absent h)
    | inr (e, at) ↦
        rw (at, invalidate) (clean_slot-AllGood f g pos e e.lock false c frame (λ v. absurd (cc)) h)
  ]

  pub insert_key_cached-AllGood :
      (f g : Bpos → Option BtreeEntry) (pos : Bpos) (entry : BtreeEntry) (seq : ℕ)
      (c : KeyCache pins)
      → ((q : Bpos) → bpos_eq pos q ≡ false → g q ≡ f q)
      → g pos ≡ some entry
      → AllGood f c.cache
      → AllGood g (bch2_btree_insert_key_cached pins pos entry seq c).cache
  unfolding bch2_btree_insert_key_cached
  insert_key_cached-AllGood f g pos entry seq c frame holds h =
      elim (Option-cases (slot_at pins pos c.cache)) [
        | inl absent ↦
            rw (absent, bch2_btree_insert_key_cached)
              ((λ _. holds, λ _. holds), AllGood-frame f g pos c.cache frame absent h)
        | inr (e, at) ↦
            rw (at, bch2_btree_insert_key_cached)
              (AllGood-update f g pos _ c.cache frame (λ _. holds, λ _. holds) h)
      ]

  pub mark_clean-AllGood :
      (f : Bpos → Option BtreeEntry) (pos : Bpos) (c : KeyCache pins)
      → AllGood f c.cache
      → AllGood f (mark_clean pins pos c).cache
  unfolding mark_clean
  mark_clean-AllGood f pos c h = elim (Option-cases (slot_at pins pos c.cache)) [
    | inl absent ↦ rw (absent, mark_clean) h
    | inr (e, at) ↦
        rw (at, mark_clean)
          (clean_slot-AllGood f f pos e e.lock e.valid c (λ q _. refl)
            (AllGood-at f pos c.cache e h at).0 h)
  ]

  pub request_flush-AllGood :
      (f : Bpos → Option BtreeEntry) (pos : Bpos) (c : KeyCache pins)
      → AllGood f c.cache
      → AllGood f (request_flush pins pos c).cache
  unfolding request_flush
  request_flush-AllGood f pos c h = elim (Option-cases (slot_at pins pos c.cache)) [
    | inl absent ↦ rw (absent, request_flush) h
    | inr (e, at) ↦
        rw (at, request_flush)
          (AllGood-update f f pos _ c.cache (λ q _. refl) (AllGood-at f pos c.cache e h at) h)
  ]

  -- What the cache gives is what the map has.
  pub find-AllGood :
      (f : Bpos → Option BtreeEntry) (pos : Bpos) (c : KeyCache pins) (entry : BtreeEntry)
      → AllGood f c.cache
      → find pins pos c ≡ some entry
      → f pos ≡ some entry
  unfolding find
  find-AllGood f pos c entry h found = elim (Option-cases (slot_at pins pos c.cache)) [
    | inl absent ↦ absurd (ground arith)
    | inr (e, at) ↦ ground (arith, (AllGood-at f pos c.cache e h at).0)
  ]

  -- The entries that the map has at their positions.
  abbrev pub Held : (Bpos → Option BtreeEntry) → Bpos × BtreeEntry → Type 0
  Held f (pos, e) = f pos ≡ some e

  pub dirty_of-Held :
      (f : Bpos → Option BtreeEntry) (m : Table) → AllGood f m → All (Held f) (dirty_of pins m)
  unfolding dirty_of
  dirty_of-Held f [] h = tt
  dirty_of-Held f ((p, e) ∷ m) (h, hs) = elim (Bool-cases e.dirty) [
    | inl d ↦ rw (d, dirty_of) (h.1 d, dirty_of-Held f m hs)
    | inr d ↦ rw (d, dirty_of) (dirty_of-Held f m hs)
  ]

  pub AllGood-same :
      (f g : Bpos → Option BtreeEntry) (m : Table)
      → ((q : Bpos) → g q ≡ f q)
      → AllGood f m
      → AllGood g m
  AllGood-same f g [] same h = tt
  AllGood-same f g ((p, e) ∷ m) same (h, hs) =
      (IsGood-frame f g p e (same p) h, AllGood-same f g m same hs)
