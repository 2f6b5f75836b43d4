-- ===== src/Snap/Table/Path.antt =====
-- snap/table.rs: the ancestors of a snapshot along its parents, and the tables that are well formed.
use mathlib.Core.Path.{subst}
use volmount.Common.{ℕ, ◌+◌, ◌<◌, ◌≤◌, ◌≡◌, ◌≢◌, ◌⊎◌, inl, inr, arith, some, true, sym, ◌∙◌}
use volmount.Snap.Meta.{SnapshotT}
use volmount.Snap.Table.{SnapshotTable, u32_max, entry_of, get}

-- `a` is reached from an id by one parent after another, deleted or not.
pub data Anc (t : SnapshotTable) (a : ℕ) : ℕ → Type 0 where
  one : {id : ℕ} (s : SnapshotT) → entry_of t id ≡ some s → s.parent ≡ a → a ≢ 0 → Anc t a id
  more :
      {id : ℕ} (s : SnapshotT)
      → entry_of t id ≡ some s
      → s.parent ≢ 0
      → Anc t a s.parent
      → Anc t a id

-- The same, where every id before `a` is live.
pub data LiveAnc (t : SnapshotTable) (a : ℕ) : ℕ → Type 0 where
  one : {id : ℕ} (s : SnapshotT) → get t id ≡ some s → s.parent ≡ a → a ≢ 0 → LiveAnc t a id
  more :
      {id : ℕ} (s : SnapshotT)
      → get t id ≡ some s
      → s.parent ≢ 0
      → LiveAnc t a s.parent
      → LiveAnc t a id

-- Parents are 32-bit ids above their children: ids are allocated downwards.
pub record ParentsAbove (t : SnapshotTable) : Type 0 where
  pub parent_above :
      (id : ℕ) (s : SnapshotT)
      → entry_of t id ≡ some s
      → s.parent ≢ 0
      → (id < s.parent) × (s.parent ≤ u32_max)

-- Parents are above their children, and the skip list and the bitmap name true ancestors only.
pub record IsWellFormed (t : SnapshotTable) : Type 0 where
  pub parent_above :
      (id : ℕ) (s : SnapshotT) → entry_of t id ≡ some s → s.parent ≢ 0 → id < s.parent
  pub skip0_above :
      (id : ℕ) (s : SnapshotT) → entry_of t id ≡ some s → s.skip0 ≢ 0 → Anc t s.skip0 id
  pub skip1_above :
      (id : ℕ) (s : SnapshotT) → entry_of t id ≡ some s → s.skip1 ≢ 0 → Anc t s.skip1 id
  pub skip2_above :
      (id : ℕ) (s : SnapshotT) → entry_of t id ≡ some s → s.skip2 ≢ 0 → Anc t s.skip2 id
  pub bits_above :
      (id : ℕ) (s : SnapshotT) (bit : ℕ)
      → entry_of t id ≡ some s
      → bit < 128
      → s.is_ancestor bit ≡ true
      → Anc t (id + bit + 1) id

pub get-entry_of :
    (t : SnapshotTable) (id : ℕ) (s : SnapshotT) → get t id ≡ some s → entry_of t id ≡ some s
unfolding get
get-entry_of t id s e = ground arith

pub Anc-trans : {t : SnapshotTable} {a b id : ℕ} → Anc t b id → Anc t a b → Anc t a id
Anc-trans {t} {a} (one s e p n) k = more s e (λ z. n (sym p ∙ z)) (subst (Anc t a) (sym p) k)
Anc-trans (more s e n h) k = more s e n (Anc-trans h k)

module _ (t : SnapshotTable) (wf : IsWellFormed t) where
  pub Anc-lt : {a id : ℕ} → Anc t a id → id < a
  Anc-lt {a} {id} (one s e p n) = omega (arith, wf.parent_above id s e (λ z. n (sym p ∙ z)))
  Anc-lt {a} {id} (more s e n h) = omega (arith, wf.parent_above id s e n, Anc-lt h)

  same_entry :
      (id : ℕ) (s s' : SnapshotT)
      → entry_of t id ≡ some s
      → get t id ≡ some s'
      → s.parent ≡ s'.parent
  unfolding get
  same_entry id s s' e f = ground arith

  -- Ancestors lie on one path: one that is not beyond a live ancestor lies before it, or is it.
  pub LiveAnc-after : {a x id : ℕ} → Anc t x id → LiveAnc t a id → x ≤ a → (x ≡ a) ⊎ LiveAnc t a x
  LiveAnc-after {a} {x} {id} (one s e p n) (one s' f q m) le =
      inl (sym p ∙ same_entry id s s' e f ∙ q)
  LiveAnc-after {a} {x} {id} (one s e p n) (more s' f m k) le =
      inr (subst (LiveAnc t a) (sym (same_entry id s s' e f) ∙ p) k)
  LiveAnc-after {a} {x} {id} (more s e n h) (one s' f q m) le =
      absurd (omega (arith, Anc-lt h, same_entry id s s' e f))
  LiveAnc-after {a} {x} {id} (more s e n h) (more s' f m k) le =
      LiveAnc-after h (subst (LiveAnc t a) (sym (same_entry id s s' e f)) k) le
