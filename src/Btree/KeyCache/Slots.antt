-- ===== src/Btree/KeyCache/Slots.antt =====
-- btree/key_cache.rs: reads and writes of the table's slots.
use volmount.Common.{
  ℕ, ◌+◌, ◌≡◌, refl, arith, if◌then◌else◌, true, false, Bool-cases, inl, inr, none, some, List, [],
  ◌∷◌,
}
use volmount.Btree.Bpos.{Bpos, bpos_eq}
use volmount.Btree.KeyCache.{Pins, CachedEntry, slot_at, update}

pub bpos_eq_same : (p q r : Bpos) → bpos_eq p q ≡ true → bpos_eq p r ≡ bpos_eq q r
unfolding bpos_eq
bpos_eq_same p q r h = ground arith

pub bpos_eq_refl : (p : Bpos) → bpos_eq p p ≡ true
unfolding bpos_eq
bpos_eq_refl p = ground arith

pub bpos_eq_sym : (p q : Bpos) → bpos_eq p q ≡ bpos_eq q p
unfolding bpos_eq
bpos_eq_sym p q = ground arith

module _ (pins : Pins) where
  abbrev Slot : Type 0
  Slot = CachedEntry pins

  -- Each position has one slot.
  abbrev pub Distinct : List (Bpos × Slot) → Type 0
  Distinct [] = Unit
  Distinct ((p, e) ∷ m) = (slot_at pins p m ≡ none) × Distinct m

  pub slot_at_same :
      (p q : Bpos) (m : List (Bpos × Slot))
      → bpos_eq p q ≡ true
      → slot_at pins p m ≡ slot_at pins q m
  slot_at_same p q [] h = refl
  slot_at_same p q ((r, e) ∷ m) h =
      ground (arith, bpos_eq_same p q r h, bpos_eq_sym r p, bpos_eq_sym r q, slot_at_same p q m)

  update_other :
      (pos : Bpos) (e' : Slot) (m : List (Bpos × Slot)) (q : Bpos)
      → bpos_eq pos q ≡ false
      → slot_at pins q (update pins pos e' m) ≡ slot_at pins q m
  update_other pos e' [] q n = refl
  update_other pos e' ((r, d) ∷ m) q n =
      ground (arith, bpos_eq_same r pos q, update_other pos e' m q)

  pub slot_at-update :
      (pos : Bpos) (e' : Slot) (m : List (Bpos × Slot)) (pos' : Bpos) (e : Slot)
      → slot_at pins pos m ≡ some e
      → slot_at pins pos' (update pins pos e' m)
        ≡ (if bpos_eq pos pos' then some e' else slot_at pins pos' m)
  slot_at-update pos e' [] pos' e h = absurd (cc)
  slot_at-update pos e' ((r, d) ∷ m) pos' e h = elim (Bool-cases (bpos_eq r pos)) [
    | inl same ↦
        rw (same, bpos_eq_same r pos pos' same)
          (elim (Bool-cases (bpos_eq pos pos')) [
            | inl k ↦ rw k refl
            | inr k ↦ rw k (update_other pos e' m pos' k)
          ])
    | inr differ ↦ ground (
      arith,
      bpos_eq_same pos pos' r,
      bpos_eq_sym r pos,
      bpos_eq_sym r pos',
      slot_at-update pos e' m pos' e,
    )
  ]

  update-none :
      (pos : Bpos) (e' : Slot) (m : List (Bpos × Slot)) (q : Bpos)
      → slot_at pins q m ≡ none
      → slot_at pins q (update pins pos e' m) ≡ none
  update-none pos e' [] q h = refl
  update-none pos e' ((r, d) ∷ m) q h = ground (arith, update-none pos e' m q)

  pub update-Distinct :
      (pos : Bpos) (e' : Slot) (m : List (Bpos × Slot))
      → Distinct m
      → Distinct (update pins pos e' m)
  update-Distinct pos e' [] d = tt
  update-Distinct pos e' ((r, e) ∷ m) (n, d) =
      (update-none pos e' m r n, update-Distinct pos e' m d)

  -- A measure of the slots, added up.
  abbrev pub sum_of : (Slot → ℕ) → List (Bpos × Slot) → ℕ
  sum_of w [] = 0
  sum_of w ((p, e) ∷ m) = w e + sum_of w m

  update_absent :
      (w : Slot → ℕ) (pos : Bpos) (e' : Slot) (m : List (Bpos × Slot))
      → slot_at pins pos m ≡ none
      → sum_of w (update pins pos e' m) ≡ sum_of w m
  update_absent w pos e' [] h = refl
  update_absent w pos e' ((r, d) ∷ m) h = ground (arith, update_absent w pos e' m)

  pub sum_of-update :
      (w : Slot → ℕ) (pos : Bpos) (e' : Slot) (m : List (Bpos × Slot)) (e : Slot)
      → Distinct m
      → slot_at pins pos m ≡ some e
      → sum_of w (update pins pos e' m) + w e ≡ sum_of w m + w e'
  sum_of-update w pos e' [] e d h = absurd (cc)
  sum_of-update w pos e' ((r, x) ∷ m) e (n, d) h = elim (Bool-cases (bpos_eq r pos)) [
    | inl same ↦ ground (arith, slot_at_same r pos m same, update_absent w pos e' m)
    | inr differ ↦ ground (arith, sum_of-update w pos e' m e d)
  ]
